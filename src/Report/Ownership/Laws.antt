-- ===== src/Report/Ownership/Laws.antt =====
-- No thread refines the report of another: the epochs implement what the history of commits says.
use tamga.Prelude.{
  ℕ, suc, ◌+◌, ◌%◌, ◌^◌, ◌<◌, ◌≤◌, Bool, false, not, ◌&&◌, [], ◌∷◌, String, ◌==◌, length, ◌≡◌, refl,
  arith, if◌then◌else◌,
}
use tamga.Report.Types.{VerifyOutcome}
use tamga.Report.Ownership.{
  World, mark_committed, still_owned_by_this_thread, set_verify_report,
  override_verify_report_operation, clear_verify_report, History, Reach, begin, commit, refine,
  clear,
}

-- The report of a session is a thread's own if the last commit to the session is the thread's, and
-- the thread has committed nothing since.
abbrev pub owns : ℕ → ℕ → History → Bool
owns thread session [] = false
owns thread session ((by, to) ∷ history) =
    if to == session
    then by == thread
    else if by == thread
    then false
    else owns thread session history

-- The number of the last commit to a session, and of the last by a thread, from 1.
session_number : ℕ → History → ℕ
session_number session [] = 0
session_number session ((by, to) ∷ history) =
    if session == to then suc (length history) else session_number session history

thread_number : ℕ → History → ℕ
thread_number thread [] = 0
thread_number thread ((by, to) ∷ history) =
    if thread == by then suc (length history) else thread_number thread history

session_number_le :
    (session : ℕ) (history : History) → session_number session history ≤ length history
unfolding session_number
session_number_le session [] = ground arith
session_number_le session ((by, to) ∷ history) = ground (arith, session_number_le session history)

thread_number_le : (thread : ℕ) (history : History) → thread_number thread history ≤ length history
unfolding thread_number
thread_number_le thread [] = ground arith
thread_number_le thread ((by, to) ∷ history) = ground (arith, thread_number_le thread history)

owns_iff :
    (thread session : ℕ) (history : History)
    → (not (session_number session history == 0)
        && (session_number session history == thread_number thread history))
      ≡ owns thread session history
unfolding session_number thread_number
owns_iff thread session [] = refl
owns_iff thread session ((by, to) ∷ history) = ground (
  arith,
  owns_iff thread session history,
  session_number_le session history,
  thread_number_le thread history,
)

-- What the counter and the epochs hold.
record IsNumbered (history : History) (world : World) : Type 0 where
  counted : world.counter ≡ length history
  by_session : (session : ℕ) → world.epoch session ≡ session_number session history
  by_thread : (thread : ℕ) → world.last_commit thread ≡ thread_number thread history

small : (n : ℕ) → suc n < 2 ^ 64 → (n + 1) % 2 ^ 64 ≡ suc n
small n h = ground arith

commit-IsNumbered :
    (thread session : ℕ) (outcome : VerifyOutcome) (history : History) (world : World)
    → length ((thread, session) ∷ history) < 2 ^ 64
    → IsNumbered history world
    → IsNumbered ((thread, session) ∷ history) (set_verify_report thread session outcome world)
unfolding set_verify_report mark_committed session_number thread_number
commit-IsNumbered thread session outcome history world h n = record {
  counted = ground (arith, n.counted, small (length history) h);
  by_session = λ s. ground (arith, n.counted, small (length history) h, n.by_session s);
  by_thread = λ t. ground (arith, n.counted, small (length history) h, n.by_thread t);
}

refine-IsNumbered :
    (thread session : ℕ) (operation : String) (history : History) (world : World)
    → IsNumbered history world
    → IsNumbered history (override_verify_report_operation thread session operation world)
unfolding override_verify_report_operation
refine-IsNumbered thread session operation history world n = ground (arith, n)

Reach-IsNumbered :
    {history : History} {world : World}
    → Reach history world
    → length history < 2 ^ 64
    → IsNumbered history world
unfolding session_number thread_number clear_verify_report
Reach-IsNumbered (begin report) h = record {
  counted = refl;
  by_session = λ s. refl;
  by_thread = λ t. refl;
}
Reach-IsNumbered (commit {history} {world} thread session outcome r) h =
    commit-IsNumbered thread session outcome history world h (Reach-IsNumbered r (ground arith))
Reach-IsNumbered (refine {history} {world} thread session operation r) h =
    refine-IsNumbered thread session operation history world (Reach-IsNumbered r h)
Reach-IsNumbered (clear session r) h =
    let n = Reach-IsNumbered r h in
    record { counted = n.counted; by_session = n.by_session; by_thread = n.by_thread }

-- Along every interleaving of fewer than 2^64 commits, renamings and resets, the comparison of
-- epochs answers exactly whether the last commit to the session is the thread's own and its newest.
pub still_owned_by_this_thread-owns :
    {history : History} {world : World} (thread session : ℕ)
    → Reach history world
    → length history < 2 ^ 64
    → still_owned_by_this_thread thread session world ≡ owns thread session history
unfolding still_owned_by_this_thread
still_owned_by_this_thread-owns {history} thread session r h =
    let n = Reach-IsNumbered r h in
    ground (arith, n.by_session session, n.by_thread thread, owns_iff thread session history)
