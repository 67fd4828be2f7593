-- ===== src/Sync/Scheduler/Due.antt =====
-- One check of the schedule.
use backend_business_intelli.Prelude.{
  ℕ, ◌+◌, ◌≤◌, ◌<◌, ◌*◌, ◌≡◌, refl, true, false, Option, none, some, List, [], ◌∷◌, arith, inl, inr,
  Bool-cases, ◌∙◌, leb, le→leb, not-leb, if◌then◌else◌,
}
use backend_business_intelli.Sync.Base.{SyncDomain, domain_eq, domain_eq_refl, domain_eq-eq}
use backend_business_intelli.Sync.Scheduler.{
  DomainScheduleConfig, LastRuns, SynchronizationScheduler, get_last_run, update_last_run,
  schedule_domain, next_run_at, is_due, check_configs, check_and_schedule_due_syncs,
}

-- No configuration of the list is stored under the name.
abbrev pub IsAbsent : SyncDomain → List (SyncDomain × DomainScheduleConfig) → Type 0
IsAbsent d [] = Unit
IsAbsent d ((name, c) ∷ cs) = (domain_eq name d ≡ false) × IsAbsent d cs

-- The dictionary stores each configuration under its own domain, and no domain twice.
abbrev pub IsKeyed : List (SyncDomain × DomainScheduleConfig) → Type 0
IsKeyed [] = Unit
IsKeyed ((name, c) ∷ cs) = (c.domain ≡ name) × IsAbsent name cs × IsKeyed cs

get_last_run-update_self :
    (d : SyncDomain) (now : ℕ) (runs : LastRuns)
    → get_last_run d (update_last_run d now runs) ≡ some now
unfolding get_last_run update_last_run
get_last_run-update_self d now [] = ground (arith, domain_eq_refl d)
get_last_run-update_self d now ((e, t) ∷ r) = ground (arith, get_last_run-update_self d now r)

get_last_run-update_ne :
    (d e : SyncDomain) (now : ℕ) (runs : LastRuns)
    → domain_eq d e ≡ false
    → get_last_run e (update_last_run d now runs) ≡ get_last_run e runs
unfolding get_last_run update_last_run
get_last_run-update_ne d e now [] h = rw h
get_last_run-update_ne d e now ((f, t) ∷ r) h = elim (Bool-cases (domain_eq f d)) [
  | inl k ↦ let p = domain_eq-eq f d k in rw (k) (ground (arith, p))
  | inr k ↦ rw k (ground (arith, get_last_run-update_ne d e now r h))
]

is_due-update_ne :
    (d e : SyncDomain) (now : ℕ) (c : DomainScheduleConfig) (runs : LastRuns)
    → domain_eq d e ≡ false
    → is_due now e c (update_last_run d now runs) ≡ is_due now e c runs
unfolding is_due
is_due-update_ne d e now c runs h = rw (get_last_run-update_ne d e now runs h)

-- One round of the loop leaves the times of other domains alone.
abbrev round : ℕ → SyncDomain → DomainScheduleConfig → LastRuns → LastRuns
round now name c runs = if is_due now name c runs then schedule_domain now c runs else runs

round-other :
    (now : ℕ) (name d : SyncDomain) (c : DomainScheduleConfig) (runs : LastRuns)
    → c.domain ≡ name
    → domain_eq name d ≡ false
    → get_last_run d (round now name c runs) ≡ get_last_run d runs
unfolding schedule_domain
round-other now name d c runs k h = elim (Bool-cases (is_due now name c runs)) [
  | inl e ↦ rw e (rw k (get_last_run-update_ne name d now runs h))
  | inr e ↦ rw e
]

round_self :
    (now : ℕ) (name : SyncDomain) (c : DomainScheduleConfig) (runs : LastRuns)
    → c.domain ≡ name
    → get_last_run name (round now name c runs)
      ≡ (if is_due now name c runs then some now else get_last_run name runs)
unfolding schedule_domain
round_self now name c runs k = elim (Bool-cases (is_due now name c runs)) [
  | inl e ↦ rw e (rw k (get_last_run-update_self name now runs))
  | inr e ↦ rw e
]

check_configs-absent :
    (now : ℕ) (d : SyncDomain) (cs : List (SyncDomain × DomainScheduleConfig)) (runs : LastRuns)
    → IsKeyed cs
    → IsAbsent d cs
    → get_last_run d (check_configs now cs runs) ≡ get_last_run d runs
unfolding check_configs
check_configs-absent now d [] runs k a = refl
check_configs-absent now d ((name, c) ∷ cs) runs k a =
    check_configs-absent now d cs (round now name c runs) k.2 a.1
    ∙ round-other now name d c runs k.0 a.0

abbrev pub find_config :
    SyncDomain → List (SyncDomain × DomainScheduleConfig) → Option DomainScheduleConfig
find_config d [] = none
find_config d ((name, c) ∷ cs) = if domain_eq name d then some c else find_config d cs

is_due-eq :
    (now : ℕ) (d : SyncDomain) (c : DomainScheduleConfig) (runs runs' : LastRuns)
    → get_last_run d runs ≡ get_last_run d runs'
    → is_due now d c runs ≡ is_due now d c runs'
unfolding is_due
is_due-eq now d c runs runs' e = rw e

check_configs-found :
    (now : ℕ) (d : SyncDomain) (c : DomainScheduleConfig)
    (cs : List (SyncDomain × DomainScheduleConfig)) (runs : LastRuns)
    → IsKeyed cs
    → find_config d cs ≡ some c
    → get_last_run d (check_configs now cs runs)
      ≡ (if is_due now d c runs then some now else get_last_run d runs)
unfolding check_configs
check_configs-found now d c [] runs k f = cc
check_configs-found now d c ((name, b) ∷ cs) runs k f = elim (Bool-cases (domain_eq name d)) [
  | inl e ↦
      let p : name ≡ d = domain_eq-eq name d e in
      let found : some b ≡ some c = rw e at f in
      let same : b ≡ c = cc found in
      check_configs-absent now d cs (round now name b runs) k.2 (rw p at k.1)
      ∙ rw (p, same) (round_self now d c runs (ground arith))
  | inr e ↦
      let other = round-other now name d b runs k.0 e in
      check_configs-found now d c cs (round now name b runs) k.2 (rw e at f)
      ∙ rw (is_due-eq now d c (round now name b runs) runs other, other)
]

is_due_first :
    (now : ℕ) (d : SyncDomain) (c : DomainScheduleConfig) (runs : LastRuns)
    → c.enabled ≡ true
    → get_last_run d runs ≡ none
    → is_due now d c runs ≡ true
unfolding is_due
is_due_first now d c runs on e = rw (on, e) refl

is_due_since :
    (now last : ℕ) (d : SyncDomain) (c : DomainScheduleConfig) (runs : LastRuns)
    → c.enabled ≡ true
    → get_last_run d runs ≡ some last
    → is_due now d c runs ≡ leb (last + 60 * c.frequency_minutes) now
unfolding is_due next_run_at
is_due_since now last d c runs on e = rw (on, e) refl

is_due_off :
    (now : ℕ) (d : SyncDomain) (c : DomainScheduleConfig) (runs : LastRuns)
    → c.enabled ≡ false
    → is_due now d c runs ≡ false
unfolding is_due
is_due_off now d c runs off = rw off refl

-- What a check at `now` makes of the last run of a configured domain: a disabled one stays; a first
-- run is scheduled at once, a later one as soon as its frequency has passed since the last.
abbrev pub Rescheduled : ℕ → DomainScheduleConfig → Option ℕ → Option ℕ → Type 0
Rescheduled now c before after =
    (c.enabled ≡ false → after ≡ before)
    × (c.enabled ≡ true → before ≡ none → after ≡ some now)
    × ((last : ℕ)
        → c.enabled ≡ true
        → before ≡ some last
        → (last + 60 * c.frequency_minutes ≤ now → after ≡ some now)
          × (now < last + 60 * c.frequency_minutes → after ≡ some last))

due-Rescheduled :
    (now : ℕ) (d : SyncDomain) (c : DomainScheduleConfig) (runs : LastRuns) (after : Option ℕ)
    → after ≡ (if is_due now d c runs then some now else get_last_run d runs)
    → Rescheduled now c (get_last_run d runs) after
due-Rescheduled now d c runs after h = (
  λ off. h ∙ rw (is_due_off now d c runs off) refl,
  λ on e. h ∙ rw (is_due_first now d c runs on e) refl,
  λ last on e. (
    λ k.
        h
        ∙ rw (is_due_since now last d c runs on e, le→leb (last + 60 * c.frequency_minutes) now k)
            refl,
    λ k.
        h
        ∙ rw (is_due_since now last d c runs on e, not-leb (last + 60 * c.frequency_minutes) now k)
            e,
  ),
)

-- A check of the schedule, with each configuration stored under its own domain and none twice. The
-- last run of a configured domain stays if it is disabled, and else becomes the time of the check
-- if there is none or if the frequency, in minutes, has passed since, and stays before that. The
-- last run of a domain that is not configured stays.
pub check_schedules_due :
    (now : ℕ) (d : SyncDomain) (s : SynchronizationScheduler)
    → IsKeyed s.schedule_configs
    → ((c : DomainScheduleConfig)
        → find_config d s.schedule_configs ≡ some c
        → Rescheduled now c
            (get_last_run d s.last_runs)
            (get_last_run d (check_and_schedule_due_syncs now s).last_runs))
      × (IsAbsent d s.schedule_configs
          → get_last_run d (check_and_schedule_due_syncs now s).last_runs
            ≡ get_last_run d s.last_runs)
unfolding check_and_schedule_due_syncs
check_schedules_due now d s k = (
  λ c f.
      due-Rescheduled now d c s.last_runs _
        (check_configs-found now d c s.schedule_configs s.last_runs k f),
  λ a. check_configs-absent now d s.schedule_configs s.last_runs k a,
)
