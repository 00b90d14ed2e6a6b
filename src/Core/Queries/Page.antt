-- ===== src/Core/Queries/Page.antt =====
-- A page of the history that the engine keeps in memory.
use spatiad.Base.{
  ℕ, zero, suc, ◌≤◌, ◌<◌, ◌≡◌, refl, ◌∙◌, sym, ap, Bool, false, ◌&&◌, Option, Option-cases, inl,
  inr, List, [], length, length-take-le, take, filter, any, reverse, nat_eq,
}
use spatiad.Base.HashMap
use spatiad.Storage.{StorageBackend}
use spatiad.Core.EventKind.{JobEventFilterKind, Codec}
use spatiad.Core.State.{Engine, JobEventRecord, JobEventsCursor}
use spatiad.Core.Journal.{events_of}
use spatiad.Core.Journal.Numbering.{Numbered, IsLogged, history, counter}
use spatiad.Core.Queries.{is_before, is_requested, max_items, job_events_cursor_filtered}
use spatiad.Core.Queries.Newest.{
  Every, IsNewestFirst, reverse-IsNewestFirst, IsNewestFirst-filter, IsNewestFirst-take, Every-take,
  filter-Every, Every-filter, take-short, any-reverse, any-filter,
}

-- What a page is of the history that it is taken from.
pub record IsPage (events : List JobEventRecord) (limit : ℕ) (cursor : Option JobEventsCursor)
    (kinds : Option (List JobEventFilterKind)) (page : List JobEventRecord) : Type 0 where
  pub newest_first : IsNewestFirst page
  pub before : Every (is_before cursor) page
  pub requested : Every (is_requested kinds) page
  pub bounded : length page ≤ max_items limit
  -- A page that is not full has all that was asked for.
  pub complete :
      length page < max_items limit
      → (p : JobEventRecord → Bool)
      → any p page ≡ any (λ x. is_before cursor x && (is_requested kinds x && p x)) events

page_of :
    List JobEventRecord
    → ℕ
    → Option JobEventsCursor
    → Option (List JobEventFilterKind)
    → List JobEventRecord
page_of events limit cursor kinds =
    take (max_items limit)
      (filter (is_requested kinds) (filter (is_before cursor) (reverse events)))

take-nil : (k : ℕ) → take {A = JobEventRecord} k [] ≡ []
take-nil zero = refl
take-nil (suc k) = refl

page_of-IsPage :
    (events : List JobEventRecord) (n limit : ℕ) (cursor : Option JobEventsCursor)
    (kinds : Option (List JobEventFilterKind))
    → Numbered events n
    → IsPage events limit cursor kinds (page_of events limit cursor kinds)
unfolding page_of
page_of-IsPage events n limit cursor kinds numbered =
    let earlier = filter (is_before cursor) (reverse events) in
    let asked = filter (is_requested kinds) earlier in
    record {
      newest_first = IsNewestFirst-take (max_items limit) asked (
          IsNewestFirst-filter (is_requested kinds) earlier (
            IsNewestFirst-filter (is_before cursor) (reverse events)
              (reverse-IsNewestFirst events n numbered)));
      before = Every-take (is_before cursor) (max_items limit) asked (
          Every-filter (is_requested kinds) (is_before cursor) earlier
            (filter-Every (is_before cursor) (reverse events)));
      requested =
          Every-take (is_requested kinds) (max_items limit) asked
            (filter-Every (is_requested kinds) earlier);
      bounded = length-take-le (max_items limit) asked;
      complete = λ short p.
          ap (any p) (take-short (max_items limit) asked short)
          ∙ any-filter p (is_requested kinds) earlier
          ∙ any-filter (λ x. is_requested kinds x && p x) (is_before cursor) (reverse events)
          ∙ any-reverse (λ x. is_before cursor x && (is_requested kinds x && p x)) events;
    }

module _ {F S : Type 0} ⦃c : Codec⦄ ⦃b : StorageBackend F S⦄ where
  memory_page :
      (e : Engine F S) (job_id limit : ℕ) (cursor : Option JobEventsCursor)
      (kinds : Option (List JobEventFilterKind))
      → b.is_persistent e.storage ≡ false
      → job_events_cursor_filtered e job_id limit cursor kinds
        ≡ page_of (history e job_id) limit cursor kinds
  unfolding page_of job_events_cursor_filtered
  memory_page e job_id limit cursor kinds memory =
      elim (Option-cases (HashMap.get job_id e.job_events)) [
        | inl p ↦
            let empty : history e job_id ≡ [] = rw (p, events_of) refl in
            rw (memory, job_events_cursor_filtered)
              (rw p (
                sym (
                  ap (λ events. page_of events limit cursor kinds) empty
                  ∙ take-nil (max_items limit))))
        | inr (events, p) ↦ rw (memory, job_events_cursor_filtered) (rw (p, events_of) refl)
      ]

  -- With a backend that is not persistent and histories that are numbered without gaps, a page of
  -- events has the newest first, only events before the cursor and of the kinds asked for, and no
  -- more than the limit (50 for a limit of 0); and a page that is not full has all such events of
  -- the job's history.
  pub job_events_cursor_filtered-IsPage :
      (e : Engine F S) (job_id limit : ℕ) (cursor : Option JobEventsCursor)
      (kinds : Option (List JobEventFilterKind))
      → b.is_persistent e.storage ≡ false
      → IsLogged e
      → IsPage
          (history e job_id)
          limit
          cursor
          kinds
          (job_events_cursor_filtered e job_id limit cursor kinds)
  job_events_cursor_filtered-IsPage e job_id limit cursor kinds memory logged =
      rw (memory_page e job_id limit cursor kinds memory) (
        page_of-IsPage (history e job_id) (counter e job_id) limit cursor kinds
          (logged.numbered job_id))
