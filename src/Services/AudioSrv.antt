-- ===== src/Services/AudioSrv.antt =====
-- The audio service of services/audiosrv/audiosrv.c. The array of sessions is the list of its entries in
-- use; a sample is a signed integer. The hardware is a parameter: what `sound_write_pcm` and
-- `sound_write_silence` (kernel/drivers/sound.c) are given is returned instead. The service's thread and
-- the CPU figure it reports are left out.
pub mod Mix
use operating_system_sctrach.Common.{
  ℕ, zero, suc, ◌+◌, ◌-◌, ◌*◌, ◌/◌, ◌%◌, ◌^◌, List, [], ◌∷◌, ◌++◌, map, Option, none, some, Bool,
  true, false, not, ◌&&◌, ◌||◌, ltb, leb, ◌==◌, if◌then◌else◌, length, modify, replicate, take,
  copy_text,
}
use operating_system_sctrach.Common.Int.{ℤ, pos, negsuc, ◌+ℤ◌, ltb_ℤ, signed32}

abbrev pub max_sessions : ℕ
max_sessions = 8

abbrev pub buffer_frames : ℕ
buffer_frames = 256

pub record AudioSession : Type 0 where
  pub app_tag : List ℕ
  pub buffer : List ℤ
  pub frames_pending : ℕ
  pub volume : ℕ
  pub muted : Bool
  pub active : Bool

pub record AudioSrv : Type 0 where
  pub sessions : List AudioSession
  pub master_volume : ℕ
  pub master_muted : Bool

-- What the sound driver is asked to play.
pub data Output : Type 0 where
  silence : ℕ → Output
  pcm : List ℤ → Output

-- `audiosrv_open_session`
unfoldable pub open_session : AudioSrv → List ℕ → AudioSrv × Option ℕ
open_session s app_tag = if leb max_sessions (length s.sessions) then (s, none) else (
  record s {
    sessions =
        s.sessions
        ++ (record {
          app_tag = copy_text 31 app_tag;
          buffer = replicate 512 (pos 0);
          frames_pending = 0;
          volume = 100;
          muted = false;
          active = true;
        }
            ∷ []);
  },
  some (length s.sessions),
)

-- `audiosrv_close_session`
unfoldable pub close_session : AudioSrv → Option ℕ → AudioSrv
close_session s none = s
close_session s (some i) = record s {
  sessions = modify s.sessions i (λ a. record a { active = false });
}

-- `audiosrv_set_master_volume`
unfoldable pub set_master_volume : AudioSrv → ℕ → AudioSrv
set_master_volume s vol = record s { master_volume = if ltb 100 vol then 100 else vol }

-- `audiosrv_set_master_mute`
unfoldable pub set_master_mute : AudioSrv → Bool → AudioSrv
set_master_mute s muted = record s { master_muted = muted }

-- The 32-bit pattern of an integer.
unfoldable pub pattern32 : ℤ → ℕ
pattern32 (pos n) = n % 2 ^ 32
pattern32 (negsuc n) = (2 ^ 32 - 1) - n % 2 ^ 32

-- `(int32_t)s->buffer[f] * vol_factor / 100`: `vol_factor` is unsigned, so the product and the quotient
-- are unsigned too.
unfoldable pub scaled : ℤ → ℕ → ℤ
scaled sample vol_factor = signed32 (pattern32 sample * vol_factor % 2 ^ 32 / 100)

-- The sum that `g_mix_buf` keeps, in 32 bits.
unfoldable pub add32 : ℤ → ℤ → ℤ
add32 a b = signed32 ((pattern32 a + pattern32 b) % 2 ^ 32)

-- The samples of a session added to the mix, `n` of them.
unfoldable pub mix_samples : ℕ → List ℤ → ℕ → List ℤ → List ℤ
mix_samples zero samples vol_factor mix = mix
mix_samples (suc n) [] vol_factor mix = mix
mix_samples (suc n) (s ∷ ss) vol_factor [] = []
mix_samples (suc n) (s ∷ ss) vol_factor (m ∷ ms) =
    add32 m (scaled s vol_factor) ∷ mix_samples n ss vol_factor ms

-- Whether a session is heard.
unfoldable pub is_heard : AudioSession → Bool
is_heard a = a.active && not a.muted && not (a.frames_pending == 0)

unfoldable pub mix_sessions : List AudioSession → ℕ → List ℤ → List ℤ
mix_sessions [] master mix = mix
mix_sessions (a ∷ xs) master mix =
    let frames = if ltb a.frames_pending buffer_frames then a.frames_pending else buffer_frames in
    mix_sessions xs master (
      if is_heard a
      then mix_samples (frames * 2) a.buffer (a.volume * master % 2 ^ 32 / 100) mix
      else mix)

unfoldable pub played : AudioSession → AudioSession
played a = if is_heard a then record a { frames_pending = 0 } else a

unfoldable pub clamp16 : ℤ → ℤ
clamp16 s =
    let low = if ltb_ℤ (pos 32767) s then pos 32767 else s in
    if ltb_ℤ low (negsuc 32767) then negsuc 32767 else low

-- `audiosrv_mix_and_output`
unfoldable pub mix_and_output : AudioSrv → AudioSrv × Output
mix_and_output s = if s.master_muted then (s, silence buffer_frames) else (
  record s { sessions = map played s.sessions },
  pcm (
      map clamp16
        (mix_sessions s.sessions s.master_volume (replicate (buffer_frames * 2) (pos 0)))),
)
