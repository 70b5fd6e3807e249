-- ===== src/Apps/PyRuntime/Response.antt =====
-- The responses of kernel/python/py_runtime.c stay within their buffer.
use operating_system_sctrach.Common.{
  ℕ, ◌+◌, ◌-◌, ◌≤◌, ◌<◌, ◌≡◌, refl, sym, ◌∙◌, ◌⊎◌, inl, inr, List, [], ◌∷◌, Option, Bool, false,
  ltb, ◌==◌, if◌then◌else◌, length, length-take, take, take_all, arith, Bool-cases, ltb→lt,
}
use operating_system_sctrach.Common.Memory.{write, write_self, write_ne}
use operating_system_sctrach.Common.Ring.{span, span-write}
use operating_system_sctrach.Strings.{write_bytes}
use operating_system_sctrach.Apps.PyRuntime.{
  PyRuntimeStats, respond, respond_whole, dispatch_http, is_root, is_stats, stats_json, router_json,
}

write_bytes-outside :
    (cs : List ℕ) (m : ℕ → ℕ) (p i : ℕ) → (i < p) ⊎ (p + length cs ≤ i) → write_bytes m p cs i ≡ m i
unfolding write_bytes
write_bytes-outside [] m p i h = refl
write_bytes-outside (c ∷ cs) m p i h =
    write_bytes-outside cs (write m p c) (p + 1) i (ground arith)
    ∙ write_ne m p c i (λ e. absurd (ground arith))

write_bytes-span : (cs : List ℕ) (m : ℕ → ℕ) (p : ℕ) → span (write_bytes m p cs) p (length cs) ≡ cs
unfolding write_bytes span
write_bytes-span [] m p = refl
write_bytes-span (c ∷ cs) m p =
    rw
      (
        write_bytes-outside cs (write m p c) (p + 1) p (inl (omega arith)),
        write_self m p c,
        write_bytes-span cs (write m p c) (p + 1),
      )
      refl

-- The buffer holds a text with its terminator.
abbrev pub Holds : (ℕ → ℕ) → List ℕ → Type 0
Holds out text = (span out 0 (length text) ≡ text) × (out (length text) ≡ 0)

respond-Holds : (out : ℕ → ℕ) (text : List ℕ) → Holds (respond out text) text
unfolding respond
respond-Holds out text = (
  span-write (write_bytes out 0 text) (length text) 0 0 (length text) (omega arith)
      ∙ write_bytes-span text out 0,
  write_self (write_bytes out 0 text) (length text) 0,
)

respond-outside :
    (out : ℕ → ℕ) (text : List ℕ) (i : ℕ) → length text < i → respond out text i ≡ out i
unfolding respond
respond-outside out text i h =
    write_ne (write_bytes out 0 text) (length text) 0 i (λ e. absurd (omega (arith, e)))
    ∙ write_bytes-outside text out 0 i (inr (omega arith))

-- What the router has for a path.
abbrev pub body : List ℕ → Option (List ℕ) → List ℕ
body page path = if is_root path then page else if is_stats path then stats_json else router_json

-- No byte behind the buffer changes; the buffer holds as much of a text as fits, or is left alone.
abbrev IsWhole : ℕ → (ℕ → ℕ) → List ℕ → (ℕ → ℕ) → Type 0
IsWhole max out text out' = ((max ≤ length text) × (out' ≡ out)) ⊎ Holds out' (take (max - 1) text)

respond_whole-IsWhole :
    (max : ℕ) (out : ℕ → ℕ) (text : List ℕ) → IsWhole max out text (respond_whole out text max)
respond_whole-IsWhole max out text = elim (Bool-cases (ltb (length text) max)) [
  | inl e ↦
      let fits = take_all (max - 1) text (omega (arith, ltb→lt (length text) max e)) in
      rw (e, fits) (inr (respond-Holds out text))
  | inr e ↦ rw e (inl (ground arith, refl))
]

whole-outside :
    (max : ℕ) (out : ℕ → ℕ) (text : List ℕ) (i : ℕ) → max ≤ i → respond_whole out text max i ≡ out i
whole-outside max out text i h = elim (Bool-cases (ltb (length text) max)) [
  | inl e ↦ rw e (respond-outside out text i (omega (arith, ltb→lt (length text) max e)))
  | inr e ↦ rw e refl
]

cut_page :
    (page : List ℕ) (max : ℕ)
    → (if ltb (length page) (max - 1) then page else take (max - 1) page) ≡ take (max - 1) page
cut_page page max = elim (Bool-cases (ltb (length page) (max - 1))) [
  | inl e ↦ rw e (sym (take_all (max - 1) page (omega (arith, ltb→lt (length page) (max - 1) e))))
  | inr e ↦ rw e refl
]

-- A request with a buffer of `max` bytes, not none, leaves every byte behind the buffer alone. The buffer
-- then holds the first `max - 1` bytes of the answer for the path, with a terminator; only an answer other
-- than the page that does not fit whole is not sent, and the buffer is left as it was.
pub dispatch_http-body :
    (page : List ℕ) (s : PyRuntimeStats) (path : Option (List ℕ)) (out : ℕ → ℕ) (max i : ℕ)
    → 0 < max
    → max ≤ i
    → let (_, out') = dispatch_http page s path out max in
      (out' i ≡ out i)
      × (((is_root path ≡ false) × (max ≤ length (body page path)) × (out' ≡ out))
          ⊎ Holds out' (take (max - 1) (body page path)))
unfolding dispatch_http
dispatch_http-body page s path out max i h k =
    let some_room : (max == 0) ≡ false = ground arith in
    elim (Bool-cases (is_root path)) [
      | inl r ↦
          rw (some_room, r, cut_page page max)
            (
              respond-outside out (take (max - 1) page) i
                  (omega (arith, length-take (max - 1) page)),
              inr (respond-Holds out (take (max - 1) page)),
            )
      | inr r ↦ elim (Bool-cases (is_stats path)) [
        | inl q ↦
            rw (some_room, r, q)
              (
                whole-outside max out stats_json i k,
                kept stats_json _ (respond_whole-IsWhole max out stats_json),
              )
        | inr q ↦
            rw (some_room, r, q)
              (
                whole-outside max out router_json i k,
                kept router_json _ (respond_whole-IsWhole max out router_json),
              )
      ]
    ]
  where
    kept :
        (text : List ℕ) (out' : ℕ → ℕ)
        → IsWhole max out text out'
        → ((◌≡◌ {A = Bool} false false) × (max ≤ length text) × (out' ≡ out))
          ⊎ Holds out' (take (max - 1) text)
    kept text out' (inl (a, b)) = inl (refl, a, b)
    kept text out' (inr w) = inr w
