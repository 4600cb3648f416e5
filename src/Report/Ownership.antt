-- ===== src/Report/Ownership.antt =====
-- Who may refine the report of a session: src/lib/core/session/VerifyReportOwnership.h, its part of
-- src/lib/core/session/VerifyReportCommit.cpp, and `OverrideVerifyReportOperation` of
-- src/lib/core/session/SessionStateAndNormalization.ipp. Sessions and threads are numbered. Every
-- step is atomic, as the session holds its mutex over it and the counter is atomic; the steps of the
-- threads interleave freely. The counter has 64 bits.
pub mod Laws
use tamga.Prelude.{
  ℕ, ◌+◌, ◌%◌, ◌^◌, Bool, true, false, not, ◌&&◌, List, [], ◌∷◌, String, ◌==◌, if◌then◌else◌,
}
use tamga.Report.Types.{VerifyReport, VerifyOutcome}
use tamga.Report.Commit.{make_cleared_verify_report, commit_verify_outcome}

-- `epoch_` and `last_verify_report_` of each session, `t_last_verify_commit_epoch` of each thread,
-- and `g_verify_report_epoch`.
pub record World : Type 0 where
  pub counter : ℕ
  pub epoch : ℕ → ℕ
  pub report : ℕ → VerifyReport
  pub last_commit : ℕ → ℕ

abbrev pub put {ℓ} : {A : Type ℓ} → ℕ → A → (ℕ → A) → ℕ → A
put at value f i = if i == at then value else f i

-- Before any call.
abbrev pub start : VerifyReport → World
start report = record {
  counter = 0;
  epoch = λ session. 0;
  report = λ session. report;
  last_commit = λ thread. 0;
}

unfoldable pub mark_committed : ℕ → ℕ → World → World
mark_committed thread session world =
    let epoch = (world.counter + 1) % 2 ^ 64 in
    record world {
      counter = epoch;
      epoch = put session epoch world.epoch;
      last_commit = put thread epoch world.last_commit;
    }

unfoldable pub still_owned_by_this_thread : ℕ → ℕ → World → Bool
still_owned_by_this_thread thread session world =
    not (world.epoch session == 0) && (world.epoch session == world.last_commit thread)

-- `SetVerifyReport`, less the user's report that it refreshes.
unfoldable pub set_verify_report : ℕ → ℕ → VerifyOutcome → World → World
unfolding mark_committed
set_verify_report thread session outcome world = mark_committed thread session (record world {
  report = put session (commit_verify_outcome make_cleared_verify_report outcome) world.report;
})

-- `OverrideVerifyReportOperation`, less the user's report that it refreshes.
unfoldable pub override_verify_report_operation : ℕ → ℕ → String → World → World
unfolding still_owned_by_this_thread
override_verify_report_operation thread session operation world =
    if not (world.report session).has_result
    then world
    else if not (still_owned_by_this_thread thread session world)
    then world
    else record world {
      report = put session (record (world.report session) { operation = operation }) world.report;
    }

-- `ClearVerifyReport`, which leaves the epoch as it is.
unfoldable pub clear_verify_report : ℕ → World → World
clear_verify_report session world = record world {
  report = put session make_cleared_verify_report world.report;
}

-- The commits so far, the newest first: the thread and the session of each.
abbrev pub History : Type 0
History = List (ℕ × ℕ)

-- The worlds that the threads reach, step by step, each with its commits.
pub data Reach : History → World → Type 0 where
  begin : (report : VerifyReport) → Reach [] (start report)
  commit :
      {history : History} {world : World} (thread session : ℕ) (outcome : VerifyOutcome)
      → Reach history world
      → Reach ((thread, session) ∷ history) (set_verify_report thread session outcome world)
  refine :
      {history : History} {world : World} (thread session : ℕ) (operation : String)
      → Reach history world
      → Reach history (override_verify_report_operation thread session operation world)
  clear :
      {history : History} {world : World} (session : ℕ)
      → Reach history world
      → Reach history (clear_verify_report session world)
