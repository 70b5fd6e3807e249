-- ===== src/Services/AudioSrv/Mix.antt =====
-- What the mixer of services/audiosrv/audiosrv.c plays.
use operating_system_sctrach.Common.{
  ℕ, zero, suc, ◌*◌, ◌/◌, ◌%◌, ◌^◌, ◌≤◌, ◌≡◌, refl, ap, ◌∙◌, List, [], ◌∷◌, map, if◌then◌else◌,
  length, length-map, length-replicate, replicate, All, arith, ltb, Bool-cases, inl, inr,
}
use operating_system_sctrach.Common.Int.{ℤ, pos, negsuc, neg_part, ◌≤ℤ◌, signed32}
use operating_system_sctrach.Services.AudioSrv.{
  AudioSrv, AudioSession, Output, silence, pcm, buffer_frames, is_heard, mix_samples, mix_sessions,
  clamp16, mix_and_output, scaled, pattern32,
}

clamp16-bounds : (s : ℤ) → (negsuc 32767 ≤ℤ clamp16 s) × (clamp16 s ≤ℤ pos 32767)
unfolding clamp16
clamp16-bounds (pos n) = ground arith
clamp16-bounds (negsuc n) = ground arith

length-mix_samples :
    (n : ℕ) (ss : List ℤ) (v : ℕ) (mix : List ℤ) → length (mix_samples n ss v mix) ≡ length mix
unfolding mix_samples
length-mix_samples zero ss v mix = refl
length-mix_samples (suc n) [] v mix = refl
length-mix_samples (suc n) (s ∷ ss) v [] = refl
length-mix_samples (suc n) (s ∷ ss) v (m ∷ ms) = ap suc (length-mix_samples n ss v ms)

length-mix_sessions :
    (xs : List AudioSession) (v : ℕ) (mix : List ℤ) → length (mix_sessions xs v mix) ≡ length mix
unfolding mix_sessions
length-mix_sessions [] v mix = refl
length-mix_sessions (a ∷ xs) v mix =
    let frames = if ltb a.frames_pending buffer_frames then a.frames_pending else buffer_frames in
    let n = frames * 2 in
    let factor = a.volume * v % 2 ^ 32 / 100 in
    elim (Bool-cases (is_heard a)) [
      | inl h ↦
          rw (mix_sessions, h)
            (length-mix_sessions xs v (mix_samples n a.buffer factor mix)
              ∙ length-mix_samples n a.buffer factor mix)
      | inr h ↦ rw (mix_sessions, h) (length-mix_sessions xs v mix)
    ]

-- What the driver is given: 256 frames of silence, or 512 samples in 16 bits.
abbrev pub IsPlayable : Output → Type 0
IsPlayable (silence n) = n ≡ buffer_frames
IsPlayable (pcm out) =
    (length out ≡ buffer_frames * 2) × All (λ s. (negsuc 32767 ≤ℤ s) × (s ≤ℤ pos 32767)) out

All-clamped : (ss : List ℤ) → All (λ s. (negsuc 32767 ≤ℤ s) × (s ≤ℤ pos 32767)) (map clamp16 ss)
All-clamped [] = tt
All-clamped (s ∷ ss) = (clamp16-bounds s, All-clamped ss)

-- Every mix plays one buffer, and each sample that leaves the mixer fits into 16 bits.
pub mix_and_output-IsPlayable : (s : AudioSrv) → IsPlayable (mix_and_output s).1
unfolding mix_and_output
mix_and_output-IsPlayable s = elim (Bool-cases s.master_muted) [
  | inl m ↦ rw (mix_and_output, m) refl
  | inr m ↦
      let mix = mix_sessions s.sessions s.master_volume (replicate (buffer_frames * 2) (pos 0)) in
      rw (mix_and_output, m)
        (
          length-map mix clamp16
              ∙ length-mix_sessions s.sessions s.master_volume
                  (replicate (buffer_frames * 2) (pos 0))
              ∙ length-replicate (buffer_frames * 2) (pos 0),
          All-clamped mix,
        )
]

product-le : (n v : ℕ) → n ≤ 32767 → v ≤ 100 → n * v ≤ 3276700
product-le n v hn hv = grind arith

scaled-small :
    (n vol_factor : ℕ)
    → n ≤ 32767
    → vol_factor ≤ 100
    → scaled (pos n) vol_factor ≡ pos (n * vol_factor / 100)
unfolding scaled pattern32
scaled-small n vol_factor hn h =
    let small : n % 2 ^ 32 ≡ n = omega arith in
    let bound = product-le n vol_factor hn h in
    let kept : n * vol_factor % 2 ^ 32 ≡ n * vol_factor = omega (arith, bound) in
    rw (small, kept) (ground (arith, bound))

scaled-nonneg : (p : ℕ) → neg_part (signed32 (p % 2 ^ 32 / 100)) ≡ 0
scaled-nonneg p = ground arith

-- A sample of 16 bits that is not negative is scaled by the volume. A negative sample is not: the product
-- is taken unsigned, so what is added to the mix is never negative.
pub scaled-sign :
    (sample : ℤ) (n vol_factor : ℕ)
    → n ≤ 32767
    → vol_factor ≤ 100
    → (neg_part (scaled sample vol_factor) ≡ 0)
      × (scaled (pos n) vol_factor ≡ pos (n * vol_factor / 100))
unfolding scaled
scaled-sign sample n vol_factor hn h =
    (scaled-nonneg (pattern32 sample * vol_factor), scaled-small n vol_factor hn h)
