-- ===== src/Core/Journal/Numbering.antt =====
-- The numbering of a job's event history, and `push_job_event`.
use spatiad.Base.{
  ℕ, zero, suc, ◌+◌, ◌-◌, ◌≤◌, ◌<◌, ◌^◌, ◌≡◌, List, [], ◌∷◌, ◌++◌, length, drop, arith,
  length-append, length-drop, u64, nat_eq, if◌then◌else◌, ◌==◌, inl, inr, Bool-cases, ltb,
}
use spatiad.Base.HashMap
use spatiad.Platform.{utc_now}
use spatiad.Storage.{StorageBackend}
use spatiad.Core.EventKind.{JobEventKind, Codec}
use spatiad.Core.State.{Engine, JobEventRecord, max_job_events}
use spatiad.Core.Journal.{sequence_of, events_of, trim, push_job_event, push_job_events}

-- Each entry's number and the entries after it add up to the counter: the numbers rise by one, and
-- the newest entry bears the counter.
abbrev pub Numbered : List JobEventRecord → ℕ → Type 0
Numbered [] n = Unit {0}
Numbered (x ∷ xs) n = (x.sequence + length xs ≡ n) × Numbered xs n

Numbered-drop : (k : ℕ) (xs : List JobEventRecord) (n : ℕ) → Numbered xs n → Numbered (drop k xs) n
Numbered-drop zero xs n h = h
Numbered-drop (suc k) [] n h = tt
Numbered-drop (suc k) (x ∷ xs) n h = Numbered-drop k xs n h.1

Numbered-append :
    (xs : List JobEventRecord) (x : JobEventRecord) (n : ℕ)
    → Numbered xs n
    → x.sequence ≡ n + 1
    → Numbered (xs ++ (x ∷ [])) x.sequence
Numbered-append [] x n h e = (omega arith, tt)
Numbered-append (y ∷ ys) x n h e =
    (omega (arith, length-append ys (x ∷ [])), Numbered-append ys x n h.1 e)

Numbered-trim : (xs : List JobEventRecord) (n : ℕ) → Numbered xs n → Numbered (trim xs) n
unfolding trim
Numbered-trim xs n h = elim (Bool-cases (ltb max_job_events (length xs))) [
  | inl over ↦ rw over (Numbered-drop (length xs - max_job_events) xs n h)
  | inr fits ↦ rw fits h
]

length-trim : (xs : List JobEventRecord) → length (trim xs) ≤ max_job_events
unfolding trim
length-trim xs = ground (arith, length-drop (length xs - max_job_events) xs)

module _ {F S : Type 0} where
  -- The history and the counter of one job.
  abbrev pub history : Engine F S → ℕ → List JobEventRecord
  history e job_id = events_of job_id e.job_events

  abbrev pub counter : Engine F S → ℕ → ℕ
  counter e job_id = sequence_of job_id e.job_event_sequences

  -- Every history is numbered up to its counter, and holds at most 200 entries.
  pub record IsLogged (e : Engine F S) : Type 0 where
    pub numbered : (job_id : ℕ) → Numbered (history e job_id) (counter e job_id)
    pub bounded : (job_id : ℕ) → length (history e job_id) ≤ max_job_events

module _ {F S : Type 0} ⦃c : Codec⦄ ⦃b : StorageBackend F S⦄ where
  counter-push_job_event :
      (e : Engine F S) (job_id : ℕ) (kind : JobEventKind) (j : ℕ)
      → counter (push_job_event e job_id kind) j
        ≡ (if j == job_id then u64 (counter e job_id + 1) else counter e j)
  unfolding push_job_event
  counter-push_job_event e job_id kind j =
      ground (arith, HashMap.get-insert j job_id (u64 (counter e job_id + 1)) e.job_event_sequences)

  -- The record that `push_job_event` adds.
  abbrev pub next_event : Engine F S → ℕ → JobEventKind → JobEventRecord
  next_event e job_id kind = record {
    sequence = u64 (counter e job_id + 1);
    occurred_at = utc_now e.world;
    kind = kind;
  }

  pub history-push_job_event :
      (e : Engine F S) (job_id : ℕ) (kind : JobEventKind) (j : ℕ)
      → history (push_job_event e job_id kind) j ≡ (
          if j == job_id
          then trim (history e job_id ++ (next_event e job_id kind ∷ []))
          else history e j)
  unfolding push_job_event
  history-push_job_event e job_id kind j = ground (
    arith,
    HashMap.get-insert j job_id (trim (history e job_id ++ (next_event e job_id kind ∷ [])))
        e.job_events,
  )

  pub push_job_event-IsLogged :
      (e : Engine F S) (job_id : ℕ) (kind : JobEventKind)
      → counter e job_id + 1 < 2 ^ 64
      → IsLogged e
      → IsLogged (push_job_event e job_id kind)
  push_job_event-IsLogged e job_id kind room v = record {
    numbered = λ j.
        rw (history-push_job_event e job_id kind j, counter-push_job_event e job_id kind j)
          (elim (Bool-cases (j == job_id)) [
            | inl h ↦ rw h (
                Numbered-trim _ _ (
                  Numbered-append (history e job_id) (next_event e job_id kind) (counter e job_id)
                    (v.numbered job_id) (omega arith)))
            | inr h ↦ rw h (v.numbered j)
          ]);
    bounded = λ j. rw (history-push_job_event e job_id kind j) (elim (Bool-cases (j == job_id)) [
      | inl h ↦ rw h (length-trim _)
      | inr h ↦ rw h (v.bounded j)
    ]);
  }

  -- A run of `push_job_event` on one job, with room in the 64-bit counter for all the events, keeps
  -- every history numbered without gaps and within 200 entries.
  pub push_job_events-IsLogged :
      (e : Engine F S) (job_id : ℕ) (kinds : List JobEventKind)
      → counter e job_id + length kinds < 2 ^ 64
      → IsLogged e
      → IsLogged (push_job_events e job_id kinds)
  unfolding push_job_events
  push_job_events-IsLogged e job_id [] room v = v
  push_job_events-IsLogged e job_id (kind ∷ kinds) room v =
      push_job_events-IsLogged (push_job_event e job_id kind) job_id kinds
        (ground (arith, counter-push_job_event e job_id kind job_id))
        (push_job_event-IsLogged e job_id kind (omega arith) v)
