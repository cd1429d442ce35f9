-- ===== src/Runtime/ControlStore/Activity.antt =====
-- The activity log of the control store: its bound, its retention and its sequence numbers.
use clew.Prelude.{
  ℕ, zero, suc, ◌+◌, ◌-◌, ◌≤◌, ◌<◌, ◌≡◌, ◌⊎◌, inl, inr, refl, sym, ap, max, List, [], ◌∷◌, ◌++◌,
  arith, u64_max,
}
use clew.Prelude.Tests.{ltb, leb, Bool-cases}
use clew.Prelude.Outcome.{ok, ok-injective, Result-cases}
use clew.Prelude.Lists.{
  length, take, drop, retain, length-append, length-drop, All, All-append, All-drop, All-retain,
}
use clew.Core.Error.{hard_max_activity_events, hard_activity_retention_ms}
use clew.Core.Policy.{ActivityEvent, validate_event}
use clew.Runtime.Snapshot.{ControllerControlSnapshot, validate_snapshot, max_sequence}
use clew.Runtime.ControlStore.Transaction.{push_activity, record_activity, Activity, event_of}

drop-append :
    {A : Type 0} → (n : ℕ) (xs ys : List A) → n ≤ length xs → drop n (xs ++ ys) ≡ drop n xs ++ ys
drop-append zero xs ys le = refl
drop-append (suc n) [] ys le = ground arith
drop-append (suc n) (x ∷ xs) ys le = drop-append n xs ys (ground arith)

take-drop : {A : Type 0} → (n : ℕ) (xs : List A) → xs ≡ take n xs ++ drop n xs
take-drop zero xs = refl
take-drop (suc n) [] = refl
take-drop (suc n) (x ∷ xs) =
    let rest : take n xs ++ drop n xs ≡ xs = sym (take-drop n xs) in rw rest

-- The events that the retention window of a new event keeps.
abbrev pub kept : ActivityEvent → List ActivityEvent → List ActivityEvent
kept event events = retain (λ e. leb (event.unix_ms - hard_activity_retention_ms) e.unix_ms) events

-- The log after an event is pushed: the event last, before it the latest events of the retention
-- window, at most 1024 in all, and none of the window lost unless the log is full.
abbrev pub Pushed : ActivityEvent → List ActivityEvent → List ActivityEvent → Type 0
Pushed event events log =
    (dropped : List ActivityEvent) × (rest : List ActivityEvent) × (kept event events
      ≡ dropped ++ rest)
    × (log ≡ rest ++ event ∷ [])
    × (length log ≤ hard_max_activity_events)
    × ((dropped ≡ []) ⊎ (length log ≡ hard_max_activity_events))

push_activity_lem :
    (event : ActivityEvent) (events : List ActivityEvent)
    → Pushed event events (push_activity event events)
unfolding push_activity
push_activity_lem event events =
    let k = kept event events in
    let n = length (k ++ event ∷ []) - hard_max_activity_events in
    let size : length (k ++ event ∷ []) ≡ length k + 1 = length-append k (event ∷ []) in
    let cut : length (drop n (k ++ event ∷ [])) ≡ length (k ++ event ∷ []) - n =
      length-drop n (k ++ event ∷ []) in
    (
      take n k,
      drop n k,
      take-drop n k,
      drop-append n k (event ∷ []) (omega arith),
      omega arith,
      elim (Bool-cases (ltb hard_max_activity_events (length (k ++ event ∷ [])))) [
        | inl full ↦ inr (ground arith)
        | inr room ↦ let none_over : n ≡ 0 = ground arith in inl (rw none_over refl)
      ],
    )

-- An event that is well-formed and numbered below `n`.
abbrev pub IsBelow : ℕ → ActivityEvent → Type 0
IsBelow n e = (validate_event e ≡ ok tt) × (e.sequence < n)

IsBelow-up : (n : ℕ) (es : List ActivityEvent) → All (IsBelow n) es → All (IsBelow (n + 1)) es
IsBelow-up n [] h = tt
IsBelow-up n (e ∷ es) h = ((h.0.0, omega (arith, h.0.1)), IsBelow-up n es h.1)

max_sequence-below :
    (n acc : ℕ) (es : List ActivityEvent)
    → acc < n
    → All (IsBelow n) es
    → (top : ℕ) × (max_sequence acc es ≡ ok top) × (top < n)
unfolding max_sequence
max_sequence-below n acc [] lt h = (acc, refl, lt)
max_sequence-below n acc (e ∷ es) lt h =
    let (top, q, below) = max_sequence-below n (max acc e.sequence) es (omega (arith, h.0.1)) h.1 in
    let v : validate_event e ≡ ok tt = h.0.0 in (top, rw (v, q), below)

IsBelow-max_sequence :
    (n acc top : ℕ) (es : List ActivityEvent)
    → max_sequence acc es ≡ ok top
    → top < n
    → (acc ≤ top) × All (IsBelow n) es
unfolding max_sequence
IsBelow-max_sequence n acc top [] q lt = (ground arith, tt)
IsBelow-max_sequence n acc top (e ∷ es) q lt = elim (Result-cases (validate_event e)) [
  | inl (u, v) ↦
      let rest = IsBelow-max_sequence n (max acc e.sequence) top es (ground (arith, v)) lt in
      (omega (arith, rest.0), ((v, omega (arith, rest.0)), rest.1))
  | inr (x, v) ↦ ground (arith, v)
]

module _ (id : ℕ) (s : ControllerControlSnapshot) where
  valid_top :
      validate_snapshot id s ≡ ok tt
      → (top : ℕ) × (max_sequence 0 s.activity ≡ ok top) × (top < s.next_activity_sequence)
  unfolding validate_snapshot
  valid_top v = elim (Result-cases (max_sequence 0 s.activity)) [
    | inl (top, q) ↦ (top, q, ground (arith, v, q))
    | inr (e, q) ↦ ground (arith, v, q)
  ]

  -- Another log in a valid snapshot, its events numbered below the next number.
  with_log :
      (log : List ActivityEvent) (next : ℕ)
      → validate_snapshot id s ≡ ok tt
      → 0 < next
      → All (IsBelow next) log
      → length log ≤ hard_max_activity_events
      → validate_snapshot id (record s { activity = log; next_activity_sequence = next }) ≡ ok tt
  unfolding validate_snapshot
  with_log log next v pos h le =
      let (top, q, lt) = max_sequence-below next 0 log pos h in ground (arith, q, v)

-- What `record_activity` answers where it does not reject.
record_activity-ok :
    (a : Activity) (s after : ControllerControlSnapshot) (event : ActivityEvent)
    → record_activity a s ≡ ok (event, after)
    → (event ≡ event_of s.next_activity_sequence a)
      × (s.next_activity_sequence < u64_max)
      × (validate_event event ≡ ok tt)
      × (after ≡ record s {
        next_activity_sequence = s.next_activity_sequence + 1;
        activity = push_activity event s.activity;
      })
unfolding record_activity
record_activity-ok a s after event q = elim (Bool-cases (leb u64_max s.next_activity_sequence)) [
  | inl last ↦ ground (arith, q, last)
  | inr room ↦ elim (Result-cases (validate_event (event_of s.next_activity_sequence a))) [
    | inr (e, v) ↦ ground (arith, q, room, v)
    | inl (u, v) ↦
        let answer = ok-injective (rw (room, v) at q) in
        let same : event ≡ event_of s.next_activity_sequence a = sym (ap (λ p. p.0) answer) in
        (same, ground arith, rw same v, rw same (sym (ap (λ p. p.1) answer)))
  ]
]

-- A snapshot in which an event was recorded.
abbrev pub Recorded :
    ℕ → Activity → ControllerControlSnapshot → ActivityEvent → ControllerControlSnapshot → Type 0
Recorded id a s event after =
    (event ≡ event_of s.next_activity_sequence a)
    × Pushed event s.activity after.activity
    × (after.next_activity_sequence ≡ s.next_activity_sequence + 1)
    × (after.next_activity_sequence ≤ u64_max)
    × (validate_snapshot id after ≡ ok tt)

-- An event recorded in a valid snapshot is the one that was given, under the next sequence number,
-- which was not the last of 64 bits; the log then has the event last and before it the latest
-- events of the retention window, is at most 1024 long and lost none of the window unless it is
-- that long; the next number is one more; and the snapshot is valid again.
pub record_activity_lem :
    (id : ℕ) (a : Activity) (s after : ControllerControlSnapshot) (event : ActivityEvent)
    → validate_snapshot id s ≡ ok tt
    → record_activity a s ≡ ok (event, after)
    → Recorded id a s event after
unfolding push_activity
record_activity_lem id a s after event v q =
    let (given, room, good, is_after) = record_activity-ok a s after event q in
    let log : Pushed event s.activity (push_activity event s.activity) =
      push_activity_lem event s.activity in
    let (top, m, lt) = valid_top id s v in
    let below =
      IsBelow-up s.next_activity_sequence s.activity
        (IsBelow-max_sequence s.next_activity_sequence 0 top s.activity m lt).1 in
    let next = s.next_activity_sequence + 1 in
    let number : event.sequence ≡ s.next_activity_sequence = rw given refl in
    let pushed : All (IsBelow next) (push_activity event s.activity) =
      All-drop (IsBelow next)
        (length (kept event s.activity ++ event ∷ []) - hard_max_activity_events)
        (kept event s.activity ++ event ∷ [])
        (All-append (IsBelow next) (kept event s.activity) (event ∷ [])
          (All-retain (IsBelow next)
            (λ e. leb (event.unix_ms - hard_activity_retention_ms) e.unix_ms) s.activity below)
          ((good, omega arith), tt)) in
    (
      given,
      rw is_after log,
      rw is_after refl,
      rw is_after (omega arith),
      rw is_after
          (with_log id s (push_activity event s.activity) next v (omega arith) pushed log.4),
    )
