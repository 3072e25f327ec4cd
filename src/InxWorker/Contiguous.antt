-- ===== src/InxWorker/Contiguous.antt =====
-- The recorded milestones and the start index over the runs of the worker.
use inx_chronicle.Common.{
  ℕ, ◌+◌, ◌≤◌, ◌<◌, Bool, some, List, [], ◌∷◌, ◌++◌, ◌≡◌, ◌≢◌, ◌∙◌, ◌⊎◌, inl, inr, refl, ap, arith,
  length, length-append, lt→ltb, subst,
}
use inx_chronicle.Common.Bytes.{Bytes}
use inx_chronicle.Common.Run.{Run, ok, err, panic, Done, done}
use inx_chronicle.Model.Milestone.{MilestoneIndexTimestamp}
use inx_chronicle.Model.Protocol.{ProtocolParameters}
use inx_chronicle.Db.Collections.{MilestoneDocument, NodeConfiguration}
use inx_chronicle.Db.Documents.{get_newest_milestone, later}
use inx_chronicle.Db.Documents.Latest.{insert_milestone-get}
use inx_chronicle.Tangle.Sources.{Milestone, BlockData}
use inx_chronicle.InxWorker.{
  InxWorkerError, Store, NodeStatus, milestone_document, then_step, start_index,
  handle_ledger_update, run_stream,
}
use inx_chronicle.InxWorker.Checkpoint.{handle_ledger_update-recorded}

-- the documents have the indexes `start`, `start + 1` and so on
abbrev pub IsRange : ℕ → List MilestoneDocument → Type 0
IsRange start [] = Unit
IsRange start (d ∷ docs) = (d.at.milestone_index ≡ start) × IsRange (start + 1) docs

IsRange-append :
    (start : ℕ) (docs : List MilestoneDocument) (d : MilestoneDocument)
    → IsRange start docs
    → d.at.milestone_index ≡ start + length docs
    → IsRange start (docs ++ (d ∷ []))
IsRange-append start [] d h e = (omega (arith, e), tt)
IsRange-append start (c ∷ docs) d h e =
    (h.0, IsRange-append (start + 1) docs d h.1 (omega (arith, e)))

-- the newest of a range is its last
get_newest_milestone-IsRange :
    (start : ℕ) (d : MilestoneDocument) (docs : List MilestoneDocument)
    → IsRange start (d ∷ docs)
    → (at : MilestoneIndexTimestamp) × (get_newest_milestone (d ∷ docs) ≡ some at)
      × (at.milestone_index ≡ start + length docs)
unfolding get_newest_milestone
get_newest_milestone-IsRange start d [] h = (d.at, refl, omega (arith, h.0))
get_newest_milestone-IsRange start d (c ∷ docs) h =
    let (at, e, f) = get_newest_milestone-IsRange (start + 1) c docs h.1 in
    let below = lt→ltb d.at.milestone_index at.milestone_index (omega (arith, h.0, f)) in
    (at, ap (λ o. some (later d.at o)) e ∙ ap some (rw below refl), omega (arith, f))

module _ {Text E Range : Type 0} where
  -- the stream has the milestones from an index on, up to its first error
  abbrev pub Follows : ℕ → List (Run E (Milestone Text E Range)) → Type 0
  Follows index [] = Unit
  Follows index (ok m ∷ stream) = (m.at.milestone_index ≡ index) × Follows (index + 1) stream
  Follows index (err e ∷ stream) = Unit
  Follows index (panic ∷ stream) = Unit

module _ {Text Date E : Type 0} where
  -- the next step runs on a well ended one, and any other is left as it is
  then_step-IsRange :
      (start : ℕ) (step : Store Text Date → Store Text Date × Run (InxWorkerError E) Done)
      (p : Store Text Date × Run (InxWorkerError E) Done)
      → ((p.1 ≡ ok done) × IsRange start (step p.0).0.milestones)
        ⊎ ((p.1 ≢ ok done) × IsRange start p.0.milestones)
      → IsRange start (then_step step p).0.milestones
  then_step-IsRange start step (store, ok done) (inl h) = h.1
  then_step-IsRange start step (store, ok done) (inr h) = absurd (h.0 refl)
  then_step-IsRange start step (store, err e) (inl h) = cc
  then_step-IsRange start step (store, err e) (inr h) = h.1
  then_step-IsRange start step (store, panic) (inl h) = cc
  then_step-IsRange start step (store, panic) (inr h) = h.1

module _ {Text Date E Range : Type 0} (aborted : List BlockData → List BlockData)
    (digest : Bytes → Bytes) (same_parameters : ProtocolParameters → ProtocolParameters → Bool)
    (same_config : NodeConfiguration Text → NodeConfiguration Text → Bool) where
  abbrev handle :
      Milestone Text E Range → Store Text Date → Store Text Date × Run (InxWorkerError E) Done
  handle = handle_ledger_update aborted digest same_parameters same_config

  abbrev run_all :
      List (Run E (Milestone Text E Range))
      → Store Text Date
      → Store Text Date × Run (InxWorkerError E) Done
  run_all = run_stream aborted digest same_parameters same_config

  -- However the run over a stream of milestones that follow the recorded ones ends, the recorded
  -- milestones are still a range without a gap that begins where it began.
  pub run_stream-IsRange :
      (start : ℕ) (stream : List (Run E (Milestone Text E Range))) (store : Store Text Date)
      → IsRange start store.milestones
      → Follows (start + length store.milestones) stream
      → IsRange start (run_all stream store).0.milestones
  unfolding run_stream
  run_stream-IsRange start [] store h f = h
  run_stream-IsRange start (err e ∷ stream) store h f = h
  run_stream-IsRange start (panic ∷ stream) store h f = h
  run_stream-IsRange start (ok m ∷ stream) store h f =
      then_step-IsRange start (run_all stream) (handle m store)
        (elim (handle_ledger_update-recorded aborted digest same_parameters same_config m store) [
          | inl (s, opened, whole, well, all) ↦
              let more = (insert_milestone-get (milestone_document m) store.milestones _ all.6).0 in
              inl (
                well,
                run_stream-IsRange start stream (handle m store).0
                    (rw more (IsRange-append start store.milestones (milestone_document m) h f.0))
                    (rw more (
                      rw (length-append store.milestones (milestone_document m ∷ []))
                        (subst (λ n. Follows n stream) (omega arith) f.1))),
              )
          | inr (stopped, kept) ↦ inr (stopped, rw kept h)
        ])

start_index-resumes :
    {E : Type 0} (start sync : ℕ) (docs : List MilestoneDocument) (status : NodeStatus)
    → IsRange start docs
    → 0 < length docs
    → status.tangle_pruning_index < start + length docs
    → start + length docs ≤ status.confirmed_milestone_index + 1
    → start_index {E = E} docs sync status ≡ ok (start + length docs)
unfolding start_index
start_index-resumes start sync [] status h some' p q = absurd (omega (arith, some'))
start_index-resumes start sync (d ∷ docs) status h some' p q =
    let (at, f, g) = get_newest_milestone-IsRange start d docs h in rw f (ground (arith, g, p, q))

module _ {Text Date E Range : Type 0} (aborted : List BlockData → List BlockData)
    (digest : Bytes → Bytes) (same_parameters : ProtocolParameters → ProtocolParameters → Bool)
    (same_config : NodeConfiguration Text → NodeConfiguration Text → Bool) where
  -- After a run over a stream of milestones that follow the recorded ones, however it ended, the next
  -- run starts at the first index that is not recorded, when some milestone is recorded and the node
  -- has not pruned that index and has confirmed the last recorded one.
  pub run_stream-restart :
      (start sync : ℕ) (stream : List (Run E (Milestone Text E Range))) (store : Store Text Date)
      (status : NodeStatus)
      → IsRange start store.milestones
      → Follows (start + length store.milestones) stream
      → let after = (run_stream aborted digest same_parameters same_config stream store).0 in
        0 < length after.milestones
        → status.tangle_pruning_index < start + length after.milestones
        → start + length after.milestones ≤ status.confirmed_milestone_index + 1
        → start_index {E = E} after.milestones sync status ≡ ok (start + length after.milestones)
  run_stream-restart start sync stream store status h f some' p q =
      start_index-resumes start sync _ status
        (run_stream-IsRange aborted digest same_parameters same_config start stream store h f) some'
        p q
