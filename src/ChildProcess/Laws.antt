-- ===== src/ChildProcess/Laws.antt =====
-- What a wait for a child process changes.
use koho.Prelude.{
  List, ◌++◌, sym, ap, ◌∙◌, Bool-cases, >>>-eq-ok, ℕ, ◌≡◌, refl, ◌⊎◌, inl, inr, Bool, true, false,
  ◌==◌, some, arith, ok, thrown, Exception,
}
use koho.ChildProcess.{
  ChildProcess, Code, exited, killed, dumped, stopped, continued, unexpected, Siginfo, Wait,
  sigchld, change, wait, failure_text,
}
use koho.Text.{bytes, to_string}

-- what the exception says: the name of the command, whether a signal has ended it, and the status
abbrev pub report : List ℕ → Bool → ℕ → List ℕ
report name true status =
    bytes "`" ++ (name ++ (bytes "': process " ++ (bytes "died on signal " ++ to_string status)))
report name false status =
    bytes "`"
    ++ (name ++ (bytes "': process " ++ (bytes "exited with failure status " ++ to_string status)))

pub failure_text-report :
    (t : ChildProcess) → failure_text t ≡ report t.name t.died_on_signal t.exit_status
failure_text-report t = elim (Bool-cases t.died_on_signal) [
  | inl hit ↦ rw hit refl
  | inr unhit ↦ rw unhit refl
]

-- How the object `t` differs from the object `s` after an answer of waitid: only in the state of the
-- process, which has stopped or goes on and has not terminated, or has terminated with the status that
-- the kernel tells.
pub record Waited (s t : ChildProcess) (info : Siginfo) : Type 0 where
  pub same_name : t.name ≡ s.name
  pub same_pid : t.pid ≡ s.pid
  pub same_signal : t.graceful_termination_signal ≡ s.graceful_termination_signal
  pub same_place : t.moved_away ≡ s.moved_away
  pub its_own : info.si_pid ≡ s.pid
  pub state :
      (((info.si_code ≡ stopped) × (t.running ≡ false) × (t.terminated ≡ false))
        ⊎ ((info.si_code ≡ continued) × (t.running ≡ true) × (t.terminated ≡ false)))
      ⊎ ((t.terminated ≡ true) × (t.exit_status ≡ info.si_status) × (t.running ≡ s.running))

-- An answer of waitid about the child.
pub record IsAbout (pid : ℕ) (info : Siginfo) : Type 0 where
  pub own : info.si_pid ≡ pid
  pub nonzero : (info.si_pid == 0) ≡ false
  pub chld : info.si_signo ≡ sigchld

changed :
    (s : ChildProcess) (info : Siginfo) (c : Code)
    → info.si_code ≡ c
    → s.terminated ≡ false
    → info.si_pid ≡ s.pid
    → ((e : Exception) × (change info c s ≡ (thrown e, s)))
      ⊎ ((t : ChildProcess) × (change info c s ≡ (ok tt, t)) × Waited s t info)
unfolding change
changed s info exited is live own = inr (
  _,
  refl,
  record {
    same_name = refl;
    same_pid = refl;
    same_signal = refl;
    same_place = refl;
    its_own = own;
    state = inr (refl, refl, refl);
  },
)
changed s info killed is live own = inr (
  _,
  refl,
  record {
    same_name = refl;
    same_pid = refl;
    same_signal = refl;
    same_place = refl;
    its_own = own;
    state = inr (refl, refl, refl);
  },
)
changed s info dumped is live own = inr (
  _,
  refl,
  record {
    same_name = refl;
    same_pid = refl;
    same_signal = refl;
    same_place = refl;
    its_own = own;
    state = inr (refl, refl, refl);
  },
)
changed s info stopped is live own = inr (
  _,
  refl,
  record {
    same_name = refl;
    same_pid = refl;
    same_signal = refl;
    same_place = refl;
    its_own = own;
    state = inl (inl (is, refl, live));
  },
)
changed s info continued is live own = inr (
  _,
  refl,
  record {
    same_name = refl;
    same_pid = refl;
    same_signal = refl;
    same_place = refl;
    its_own = own;
    state = inl (inr (is, refl, live));
  },
)
changed s info unexpected is live own = inl (_, refl)

pub wait_about :
    (os : Wait) (nonblocking : Bool) (s : ChildProcess) (info : Siginfo)
    → s.moved_away ≡ false
    → s.terminated ≡ false
    → os.waitid s.pid nonblocking ≡ some info
    → IsAbout s.pid info
    → wait os nonblocking s ≡ change info info.si_code s
unfolding wait
wait_about os false s info here live e about =
    let own : (info.si_pid == s.pid) ≡ true = ground (arith, about.own) in
    let chld : (info.si_signo == sigchld) ≡ true = ground (arith, about.chld) in
    rw (here, live, e, own, chld)
wait_about os true s info here live e about =
    let own : (info.si_pid == s.pid) ≡ true = ground (arith, about.own) in
    let chld : (info.si_signo == sigchld) ≡ true = ground (arith, about.chld) in
    rw (here, live, e, about.nonzero, own, chld)

-- A wait on a child that is there and has not terminated, with an answer about that child: it throws
-- and changes nothing, or it returns and the object is as the kernel tells.
pub wait_lem :
    (os : Wait) (nonblocking : Bool) (s : ChildProcess) (info : Siginfo)
    → s.moved_away ≡ false
    → s.terminated ≡ false
    → os.waitid s.pid nonblocking ≡ some info
    → IsAbout s.pid info
    → ((e : Exception) × (wait os nonblocking s ≡ (thrown e, s)))
      ⊎ ((t : ChildProcess) × (wait os nonblocking s ≡ (ok tt, t)) × Waited s t info)
wait_lem os nonblocking s info here live e about =
    rw (wait_about os nonblocking s info here live e about)
      (changed s info info.si_code refl live about.own)

change_here :
    (info : Siginfo) (code : Code) (s : ChildProcess)
    → (change info code s).1.moved_away ≡ s.moved_away
unfolding change
change_here info exited s = refl
change_here info killed s = refl
change_here info dumped s = refl
change_here info stopped s = refl
change_here info continued s = refl
change_here info unexpected s = refl

-- Only a child that is there can be waited for.
pub wait_here :
    (os : Wait) (nonblocking : Bool) (s t : ChildProcess)
    → wait os nonblocking s ≡ (ok tt, t)
    → t.moved_away ≡ false
unfolding wait
wait_here os nonblocking s t e = elim (Bool-cases s.moved_away) [
  | inl gone ↦ cc (ap (λ x. x.0) (rw gone at e))
  | inr here ↦
      let (info, _, changed) = >>>-eq-ok _ (λ info u. change info info.si_code u) e in
      sym (ap (λ x. x.1.moved_away) changed) ∙ change_here info info.si_code s ∙ here
]
