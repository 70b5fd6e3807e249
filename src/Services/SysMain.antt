-- ===== src/Services/SysMain.antt =====
-- The memory prefetcher of services/sysmain/sysmain.c. The table is the list of its entries in use; the
-- pages to prefetch, which the code only counts, are left out, and so are the telemetry that the thread
-- sends and its waiting.
pub mod Order
use operating_system_sctrach.Common.{
  ℕ, zero, suc, ◌+◌, ◌-◌, ◌*◌, ◌%◌, ◌^◌, List, [], ◌∷◌, ◌++◌, map, Option, none, some, Bool, true,
  false, not, ◌&&◌, ltb, leb, ◌==◌, if◌then◌else◌, find_first, modify, length, count, take, drop,
  copy_text, same_text,
}

abbrev pub prefetch_entries : ℕ
prefetch_entries = 128

pub record PrefetchEntry : Type 0 where
  pub app_tag : List ℕ
  pub launch_count : ℕ
  pub last_access : ℕ
  pub page_count : ℕ
  pub prefetched : Bool

pub record SysMain : Type 0 where
  pub table : List PrefetchEntry
  pub mem_saved_kb : ℕ

-- `sysmain_find_or_create`: the slot of the entry.
unfoldable pub find_or_create : SysMain → List ℕ → SysMain × Option ℕ
find_or_create s tag =
    elim (find_first (λ (e : PrefetchEntry). same_text (copy_text 31 e.app_tag) (copy_text 31 tag))
      s.table) [
        | some (i, _) ↦ (s, some i)
        | none ↦ if leb prefetch_entries (length s.table) then (s, none) else (
          record s {
            table =
                s.table
                ++ (record {
                  app_tag = copy_text 31 tag;
                  launch_count = 0;
                  last_access = 0;
                  page_count = 0;
                  prefetched = false;
                }
                    ∷ []);
          },
          some (length s.table),
        )
      ]

-- `sysmain_prefetch_app`, on the entry and the figure it adds to.
unfoldable pub prefetch_app : PrefetchEntry → ℕ → PrefetchEntry × ℕ
prefetch_app e saved =
    if e.prefetched
    then (e, saved)
    else (record e { prefetched = true }, (saved + e.page_count * 4) % 2 ^ 32)

unfoldable pub prefetch_all : List PrefetchEntry → ℕ → List PrefetchEntry × ℕ
prefetch_all [] saved = ([], saved)
prefetch_all (e ∷ es) saved =
    let (e', next) = prefetch_app e saved in
    let (es', last) = prefetch_all es next in (e' ∷ es', last)

unfoldable pub is_cold : ℕ → PrefetchEntry → Bool
is_cold now e = ltb 10000 ((now + 2 ^ 64 - e.last_access) % 2 ^ 64) && e.prefetched

-- `sysmain_compress_cold_pages`; `now` is `sched_get_ticks()`.
unfoldable pub compress_cold_pages : ℕ → SysMain → SysMain
compress_cold_pages now s =
    let compressed = count (is_cold now) s.table in
    record s {
      table =
          map (λ (e : PrefetchEntry). if is_cold now e then record e { prefetched = false } else e)
            s.table;
      mem_saved_kb = (s.mem_saved_kb + compressed * 16) % 2 ^ 32;
    }

-- `sysmain_record_launch`
unfoldable pub record_launch : ℕ → SysMain → List ℕ → SysMain
record_launch now s tag =
    let (s', slot) = find_or_create s tag in
    elim slot [
      | none ↦ s'
      | some i ↦ record s' {
        table = modify s'.table i (λ e. record e {
          launch_count = (e.launch_count + 1) % 2 ^ 32;
          last_access = now;
          prefetched = false;
        });
      }
    ]

-- The inner loop of the sort: the entry at `i` against those behind it, with which it is exchanged when
-- one of them was launched more often. The result is what stands at `i` and behind it.
unfoldable pub select : PrefetchEntry → List PrefetchEntry → PrefetchEntry × List PrefetchEntry
select x [] = (x, [])
select x (y ∷ ys) =
    let exchange = ltb x.launch_count y.launch_count in
    let (best, rest) = select (if exchange then y else x) ys in
    (best, (if exchange then x else y) ∷ rest)

-- The outer loop, over `n` entries.
unfoldable pub sort_from : ℕ → List PrefetchEntry → List PrefetchEntry
sort_from zero es = es
sort_from (suc n) [] = []
sort_from (suc n) (e ∷ es) = let (best, rest) = select e es in best ∷ sort_from n rest

-- One pass of the service's thread.
unfoldable pub scan : ℕ → SysMain → SysMain
scan now s =
    let sorted = sort_from (length s.table) s.table in
    let (top, saved) = prefetch_all (take 8 sorted) s.mem_saved_kb in
    compress_cold_pages now (record { table = top ++ drop 8 sorted; mem_saved_kb = saved })
