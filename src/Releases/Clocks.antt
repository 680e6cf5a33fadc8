-- ===== src/Releases/Clocks.antt =====
-- The clock of the service of Home Assistant versions.
use home_assistant.Base.{none, some, ◌≡◌, ◌⊎◌, inl, inr, refl}
use home_assistant.Base.Time.{Time}
use home_assistant.Releases.HaVersions.{Service, now}

-- The clock of a service, or the wall clock where it has none.
abbrev pub IsClock : {W : Type 0} → Service W → (W → Time × W) → Type 0
IsClock s clock = (s.clock ≡ some clock) ⊎ ((s.clock ≡ none) × (s.wall_clock ≡ clock))

pub now_lem : {W : Type 0} (s : Service W) (clock : W → Time × W) → IsClock s clock → now s ≡ clock
unfolding now
now_lem s clock is_clock = elim is_clock [ inl e ↦ rw e refl | inr e ↦ rw (e.0, e.1) refl ]
