-- ===== src/Participation/Hysteresis.antt =====
-- The counters of samples: a change of participation takes three samples in a row.
use ployz.Prelude.{ℕ, suc, ◌≤◌, ◌≡◌, ◌↔◌, refl, none, List, [], ◌∷◌, arith}
use ployz.Model.Machine.{disabled, enabled, draining}
use ployz.Participation.{
  ParticipationState, PeerHealthSample, healthy, unhealthy, default, update_hysteresis,
  next_participation, by_samples, min,
}

-- The state after samples, the newest first.
abbrev pub counted : List PeerHealthSample → ParticipationState
counted [] = default
counted (x ∷ xs) = update_hysteresis (counted xs) x

-- The samples of the newest kind.
abbrev pub good_run : List PeerHealthSample → ℕ
good_run [] = 0
good_run (healthy ∷ xs) = suc (good_run xs)
good_run (unhealthy ∷ xs) = 0

abbrev pub bad_run : List PeerHealthSample → ℕ
bad_run [] = 0
bad_run (healthy ∷ xs) = 0
bad_run (unhealthy ∷ xs) = suc (bad_run xs)

record Counts (xs : List PeerHealthSample) : Type 0 where
  good : (counted xs).consecutive_good_samples ≡ min (good_run xs) 3
  bad : (counted xs).consecutive_bad_samples ≡ min (bad_run xs) 3
  unforced : (counted xs).forced_participation ≡ none

counted-Counts : (xs : List PeerHealthSample) → Counts xs
unfolding update_hysteresis
counted-Counts [] = record { good = refl; bad = refl; unforced = refl }
counted-Counts (healthy ∷ xs) =
    let h = counted-Counts xs in
    record { good = ground (arith, h.good); bad = refl; unforced = h.unforced }
counted-Counts (unhealthy ∷ xs) =
    let h = counted-Counts xs in
    record { good = refl; bad = ground (arith, h.bad); unforced = h.unforced }

-- How the samples decide, when nothing is forced.
pub record Decides (xs : List PeerHealthSample) : Type 0 where
  pub joins : (next_participation (counted xs) disabled ≡ enabled) ↔ (3 ≤ good_run xs)
  pub leaves : (next_participation (counted xs) enabled ≡ disabled) ↔ (3 ≤ bad_run xs)
  pub stays_out : (next_participation (counted xs) disabled ≡ disabled) ↔ (good_run xs ≤ 2)
  pub stays_in : (next_participation (counted xs) enabled ≡ enabled) ↔ (bad_run xs ≤ 2)
  pub drains : next_participation (counted xs) draining ≡ draining

-- From the default state and with nothing forced, whatever samples have come: a disabled machine
-- is enabled just when at least the last three were healthy, and an enabled one is disabled just
-- when at least the last three were not; otherwise each stays as it is, and a draining one always
-- does.
pub next_participation-Decides : (xs : List PeerHealthSample) → Decides xs
unfolding next_participation
next_participation-Decides xs =
    let h = counted-Counts xs in
    record {
      joins =
          rw (h.unforced, h.good, next_participation, by_samples)
            (λ e. ground arith, λ e. ground arith);
      leaves =
          rw (h.unforced, h.bad, next_participation, by_samples)
            (λ e. ground arith, λ e. ground arith);
      stays_out =
          rw (h.unforced, h.good, next_participation, by_samples)
            (λ e. ground arith, λ e. ground arith);
      stays_in =
          rw (h.unforced, h.bad, next_participation, by_samples)
            (λ e. ground arith, λ e. ground arith);
      drains = rw (h.unforced, next_participation) refl;
    }
