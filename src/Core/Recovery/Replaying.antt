-- ===== src/Core/Recovery/Replaying.antt =====
-- `replay` on the durable state.
use spatiad.Base.{
  ℕ, ◌<◌, ◌≡◌, refl, ◌∙◌, ap, Option, none, some, List, [], ◌∷◌, ◌++◌, nat_eq, arith,
}
use spatiad.Platform.{F64, H3}
use spatiad.Storage.{StorageBackend, Command, EngineSnapshot}
use spatiad.Core.EventKind.{Codec}
use spatiad.Core.State.{Engine}
use spatiad.Core.Commands.{apply_command}
use spatiad.Core.Recovery.{to_snapshot, replay}
use spatiad.Core.Recovery.Durable.{step, numbered, to_snapshot-apply_command}
use spatiad.Storage.Contract.{after, Below, number}

module _ {F : Type 0} where
  -- The log run on a snapshot.
  unfoldable pub replay_on : EngineSnapshot F → List (ℕ × Command F) → EngineSnapshot F
  replay_on s [] = s
  replay_on s ((n, cmd) ∷ rest) = replay_on (numbered (step s cmd) n) rest

  pub replay_on-append :
      (s : EngineSnapshot F) (xs ys : List (ℕ × Command F))
      → replay_on s (xs ++ ys) ≡ replay_on (replay_on s xs) ys
  unfolding replay_on
  replay_on-append s [] ys = refl
  replay_on-append s ((n, cmd) ∷ xs) ys = replay_on-append (numbered (step s cmd) n) xs ys

  -- The state of a new engine.
  abbrev pub empty : ℕ → EngineSnapshot F
  empty h3_resolution = record {
    h3_resolution = h3_resolution;
    drivers = [];
    jobs = [];
    offers = [];
    cancelled_jobs = [];
    job_event_sequences = [];
    wal_sequence = 0;
  }

  abbrev pub base : ℕ → Option (EngineSnapshot F) → EngineSnapshot F
  base h3_resolution none = empty h3_resolution
  base h3_resolution (some s) = s

  pub number-base :
      (h3_resolution : ℕ) (o : Option (EngineSnapshot F))
      → (base h3_resolution o).wal_sequence ≡ number o
  number-base h3_resolution none = refl
  number-base h3_resolution (some s) = refl

  pub after-Below : (n : ℕ) (xs : List (ℕ × Command F)) → Below n xs → after n xs ≡ []
  after-Below n [] l = refl
  after-Below n (x ∷ xs) l = ground (arith, after-Below n xs l.1)

  pub Below-append :
      (m n : ℕ) (cmd : Command F) (xs : List (ℕ × Command F))
      → Below m xs
      → m < n
      → Below n (xs ++ ((n, cmd) ∷ []))
  Below-append m n cmd [] l p = (omega arith, tt)
  Below-append m n cmd (x ∷ xs) l p = (omega arith, Below-append m n cmd xs l.1 p)

  pub after-append :
      (m n : ℕ) (cmd : Command F) (xs : List (ℕ × Command F))
      → m < n
      → after m (xs ++ ((n, cmd) ∷ [])) ≡ after m xs ++ ((n, cmd) ∷ [])
  after-append m n cmd [] p = ground arith
  after-append m n cmd (x ∷ xs) p = ground (arith, after-append m n cmd xs p)

module _ {F S : Type 0} ⦃f : F64 F⦄ ⦃h : H3 F⦄ ⦃c : Codec⦄ ⦃b : StorageBackend F S⦄ where
  pub to_snapshot-replay :
      (e : Engine F S) (entries : List (ℕ × Command F))
      → to_snapshot (replay e entries) ≡ replay_on (to_snapshot e) entries
  unfolding replay replay_on
  to_snapshot-replay e [] = refl
  to_snapshot-replay e ((n, cmd) ∷ rest) =
      to_snapshot-replay (record (apply_command e cmd) { wal_sequence = n }) rest
      ∙ ap (λ s. replay_on s rest)
          (unfold to_snapshot in ap (λ s. numbered s n) (to_snapshot-apply_command e cmd))
