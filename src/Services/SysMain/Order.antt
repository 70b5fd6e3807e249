-- ===== src/Services/SysMain/Order.antt =====
-- The sort of services/sysmain/sysmain.c.
use operating_system_sctrach.Common.{
  ℕ, zero, suc, ◌≤◌, ◌≡◌, refl, sym, ap, subst, List, [], ◌∷◌, Bool, true, false, ltb,
  if◌then◌else◌, length, All, arith, Bool-cases, inl, inr,
}
use mathlib.Core.List.{Perm, Permᴰ}
use mathlib.Core.List.Permᴰ as PermD
use operating_system_sctrach.Services.SysMain.{PrefetchEntry, select, sort_from}

-- Every entry was launched at most `k` times.
abbrev AtMost : ℕ → List PrefetchEntry → Type 0
AtMost k = All (λ f. f.launch_count ≤ k)

-- Launched most often first.
abbrev pub Descending : List PrefetchEntry → Type 0
Descending [] = Unit {0}
Descending (e ∷ es) = All (λ f. f.launch_count ≤ e.launch_count) es × Descending es

-- The inner loop on a list that is not empty.
abbrev step :
    Bool → PrefetchEntry → PrefetchEntry → List PrefetchEntry → PrefetchEntry × List PrefetchEntry
step b x y ys =
    let (best, rest) = select (if b then y else x) ys in (best, (if b then x else y) ∷ rest)

select-step :
    (x y : PrefetchEntry) (ys : List PrefetchEntry) (b : Bool)
    → ltb x.launch_count y.launch_count ≡ b
    → select x (y ∷ ys) ≡ step b x y ys
unfolding select
select-step x y ys b e = ap (λ c. step c x y ys) e

select-Perm :
    (x : PrefetchEntry) (ys : List PrefetchEntry)
    → let (best, rest) = select x ys in Permᴰ (best ∷ rest) (x ∷ ys)
unfolding select
select-Perm x [] = PermD.refl (x ∷ [])
select-Perm x (y ∷ ys) = elim (Bool-cases (ltb x.launch_count y.launch_count)) [
  | inl e ↦
      subst (λ r. Permᴰ (r.0 ∷ r.1) (x ∷ y ∷ ys)) (sym (select-step x y ys true e))
        (Permᴰ.trans (Permᴰ.swap refl refl) (Permᴰ.cons refl (select-Perm y ys)))
  | inr e ↦
      subst (λ r. Permᴰ (r.0 ∷ r.1) (x ∷ y ∷ ys)) (sym (select-step x y ys false e))
        (Permᴰ.trans (Permᴰ.swap refl refl)
          (Permᴰ.trans (Permᴰ.cons refl (select-Perm x ys)) (Permᴰ.swap refl refl)))
]

abbrev IsBest : PrefetchEntry → PrefetchEntry × List PrefetchEntry → Type 0
IsBest x r = (x.launch_count ≤ r.0.launch_count) × AtMost r.0.launch_count r.1

select-IsBest : (x : PrefetchEntry) (ys : List PrefetchEntry) → IsBest x (select x ys)
unfolding select
select-IsBest x [] = (omega arith, tt)
select-IsBest x (y ∷ ys) = elim (Bool-cases (ltb x.launch_count y.launch_count)) [
  | inl e ↦
      let (up, rest) = select-IsBest y ys in
      let less : x.launch_count ≤ y.launch_count = ground arith in
      subst (IsBest x) (sym (select-step x y ys true e))
        (omega (arith, up, less), (omega (arith, up, less), rest))
  | inr e ↦
      let (up, rest) = select-IsBest x ys in
      let less : y.launch_count ≤ x.launch_count = ground arith in
      subst (IsBest x) (sym (select-step x y ys false e)) (up, (omega (arith, up, less), rest))
]

length-select : (x : PrefetchEntry) (ys : List PrefetchEntry) → length (select x ys).1 ≡ length ys
unfolding select
length-select x [] = refl
length-select x (y ∷ ys) =
    ap suc (length-select (if ltb x.launch_count y.launch_count then y else x) ys)

AtMost-Perm : (k : ℕ) {xs ys : List PrefetchEntry} → Permᴰ xs ys → AtMost k ys → AtMost k xs
AtMost-Perm k Permᴰ.nil h = tt
AtMost-Perm k (Permᴰ.cons e p) h =
    (subst (λ (f : PrefetchEntry). f.launch_count ≤ k) (sym e) h.0, AtMost-Perm k p h.1)
AtMost-Perm k (Permᴰ.swap e f) h = (
  subst (λ (f : PrefetchEntry). f.launch_count ≤ k) (sym e) h.1.0,
  (subst (λ (f : PrefetchEntry). f.launch_count ≤ k) (sym f) h.0, h.1.1),
)
AtMost-Perm k (Permᴰ.trans p q) h = AtMost-Perm k p (AtMost-Perm k q h)

sort_from-Perm : (n : ℕ) (es : List PrefetchEntry) → Permᴰ (sort_from n es) es
unfolding sort_from
sort_from-Perm zero es = PermD.refl es
sort_from-Perm (suc n) [] = PermD.refl []
sort_from-Perm (suc n) (e ∷ es) =
    Permᴰ.trans (Permᴰ.cons refl (sort_from-Perm n (select e es).1)) (select-Perm e es)

sort_from-Descending :
    (n : ℕ) (es : List PrefetchEntry) → length es ≤ n → Descending (sort_from n es)
unfolding sort_from
sort_from-Descending zero [] h = tt
sort_from-Descending zero (e ∷ es) h = absurd (omega arith)
sort_from-Descending (suc n) [] h = tt
sort_from-Descending (suc n) (e ∷ es) h =
    let rest = (select e es).1 in
    (
      AtMost-Perm (select e es).0.launch_count (sort_from-Perm n rest) (select-IsBest e es).1,
      sort_from-Descending n rest (omega (arith, length-select e es)),
    )

-- The sort, over as many rounds as there are entries, puts the table in order, the application launched
-- most often first, and only rearranges its entries.
pub sort_from-Sorted :
    (es : List PrefetchEntry)
    → Descending (sort_from (length es) es) × Perm (sort_from (length es) es) es
sort_from-Sorted es =
    (sort_from-Descending (length es) es (omega arith), ∣ sort_from-Perm (length es) es ∣₁)
