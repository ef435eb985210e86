-- ===== src/Util/Laws.antt =====
-- When the checks at the start succeed, and what the joined words of a command are.
use koho.Prelude.{
  ℕ, ◌^◌, ◌<◌, ◌≡◌, refl, sym, ap, subst, ◌∙◌, ◌↔◌, inl, inr, Bool, true, false, not, ◌||◌, some,
  List, [], ◌∷◌, String, ◌++◌, append_assoc, append-nil, arith, ◌==◌, Bool-cases, Option-cases,
  Outcome, ok, >>=-eq-ok, ◌>>=◌, throw_if, system_call, is_negative, Exception,
}
use koho.Text.{bytes, same_text}
use koho.FileDescriptor
use koho.FileDescriptor.{Os, FileDescriptor, buffer_size}
use koho.FileDescriptor.Construct.{fresh, construct_lem, construct_works}
use koho.Util.{Files, line, check_requirements, join, join_rest}

-- A file that can be read under a name.
pub record IsOpened (files : Files) (path : List ℕ) (fd : ℕ) : Type 0 where
  pub opened : files.open_read path ≡ some fd
  pub high : (2 < fd) × (fd < 2 ^ 31)
  pub flags : ℕ
  pub close_on_exec : files.fcntl fd ≡ some flags

-- What the program needs: its name, the standard descriptors, the rights of root, a cleared
-- environment, and a kernel that forwards packets.
pub record IsReady (files : Files) (euid : ℕ) (environ_set : Bool) (argc : ℕ) : Type 0 where
  pub named : (0 < argc) × (argc < 2 ^ 31)
  pub null_fd : ℕ
  pub null : IsOpened files (bytes "/dev/null") null_fd
  pub root : euid ≡ 0
  pub cleared : environ_set ≡ false
  pub ipf_fd : ℕ
  pub ipf : IsOpened files (bytes "/proc/sys/net/ipv4/ip_forward") ipf_fd
  pub forwards : files.os.read ipf_fd buffer_size ≡ some (line "1")

throw_if-ok : (b : Bool) (e : Exception) {u : Unit {0}} → throw_if b e ≡ ok u → b ≡ false
throw_if-ok true e h = cc h
throw_if-ok false e h = refl

pub same_text_refl : (x : List ℕ) → same_text x x ≡ true
same_text_refl [] = refl
same_text_refl (b ∷ x) = ground (arith, same_text_refl x)

pub same_text-eq : (xs ys : List ℕ) → same_text xs ys ≡ true → xs ≡ ys
same_text-eq [] [] h = refl
same_text-eq [] (y ∷ ys) h = cc h
same_text-eq (x ∷ xs) [] h = cc h
same_text-eq (x ∷ xs) (y ∷ ys) h = ground (arith, same_text-eq xs ys)

-- What has been opened when the rest of a sequence returns.
opened_lem {ℓ} :
    {A : Type ℓ} (files : Files) (path : List ℕ) (attempt : String)
    (next : FileDescriptor → Outcome A) {a : A}
    → (system_call attempt (files.open_read path) >>= λ fd.
        FileDescriptor.construct fd (files.fcntl fd) >>= next)
      ≡ ok a
    → (fd : ℕ) × IsOpened files path fd × (next (fresh fd) ≡ ok a)
opened_lem files path attempt next {a} e = elim (Option-cases (files.open_read path)) [
  | inl missing ↦ cc (rw missing at e)
  | inr (fd, opened) ↦
      let (s, made, rest) =
        >>=-eq-ok (FileDescriptor.construct fd (files.fcntl fd)) next (rw opened at e) in
      let (low, high, (flags, answer), same) = construct_lem fd (files.fcntl fd) made in
      (
        fd,
        record { opened = opened; high = (low, high); flags = flags; close_on_exec = answer },
        subst (λ d. next d ≡ ok a) (sym same) rest,
      )
]

-- `check_requirements` succeeds just if the program has a name, /dev/null can be opened and gets a
-- descriptor above the standard three, the effective user is root, the environment is cleared, and the
-- file of ip_forward can be opened and reads as 1. The real user may be any, root too.
pub check_requirements_iff :
    (files : Files) (euid : ℕ) (environ_set : Bool) (argc : ℕ) (name : List ℕ)
    → (check_requirements files euid environ_set argc name ≡ ok tt)
      ↔ IsReady files euid environ_set argc
unfolding check_requirements FileDescriptor.read
check_requirements_iff files euid environ_set argc name = (to, from)
  where
    from :
        IsReady files euid environ_set argc
        → check_requirements files euid environ_set argc name ≡ ok tt
    from h =
        let named : (is_negative argc || argc == 0) ≡ false = ground (arith, h.named) in
        let root : not (euid == 0) ≡ false = ground (arith, h.root) in
        let null =
          construct_works h.null_fd (files.fcntl h.null_fd) h.null.flags h.null.high.0 h.null.high.1
            h.null.close_on_exec in
        let ipf =
          construct_works h.ipf_fd (files.fcntl h.ipf_fd) h.ipf.flags h.ipf.high.0 h.ipf.high.1
            h.ipf.close_on_exec in
        rw (named, h.null.opened, null, root, h.cleared, h.ipf.opened, ipf, h.forwards)

    to :
        check_requirements files euid environ_set argc name ≡ ok tt
        → IsReady files euid environ_set argc
    to e = elim (Bool-cases (is_negative argc || argc == 0)) [
      | inl nameless ↦ cc (rw nameless at e)
      | inr named ↦
          let (null_fd, null, checked) =
            opened_lem files (bytes "/dev/null") "open /dev/null" _ (rw named at e) in
          elim (Bool-cases (euid == 0)) [
            | inr user ↦ cc (rw user at checked)
            | inl root ↦ elim (Bool-cases environ_set) [
              | inl dirty ↦ cc (rw (root, dirty) at checked)
              | inr cleared ↦
                  let (ipf_fd, ipf, last) =
                    opened_lem files (bytes "/proc/sys/net/ipv4/ip_forward")
                      "open /proc/sys/net/ipv4/ip_forward" _ (rw (root, cleared) at checked) in
                  elim (Option-cases (files.os.read ipf_fd buffer_size)) [
                    | inl unread ↦ cc (rw unread at last)
                    | inr (contents, content) ↦ elim (Bool-cases (same_text contents (line "1"))) [
                      | inr other ↦ cc (rw (content, other) at last)
                      | inl one ↦ record {
                        named = ground arith;
                        null_fd = null_fd;
                        null = null;
                        root = ground arith;
                        cleared = cleared;
                        ipf_fd = ipf_fd;
                        ipf = ipf;
                        forwards = content ∙ ap some (same_text-eq contents (line "1") one);
                      }
                    ]
                  ]
            ]
          ]
    ]

-- the words of a command, each behind a space
abbrev pub spaced : List (List ℕ) → List ℕ
spaced [] = []
spaced (word ∷ command) = bytes " " ++ (word ++ spaced command)

join_rest_lem : (a : List ℕ) (command : List (List ℕ)) → join_rest a command ≡ a ++ spaced command
unfolding join_rest
join_rest_lem a [] = sym (append-nil a)
join_rest_lem a (word ∷ command) =
    join_rest_lem (a ++ (bytes " " ++ word)) command ∙ simp append_assoc

-- The words of a command that has any, in order, with one space between each two.
pub join_lem :
    (word : List ℕ) (command : List (List ℕ)) → join (word ∷ command) ≡ ok (word ++ spaced command)
unfolding join
join_lem word command = ap ok (join_rest_lem word command)
