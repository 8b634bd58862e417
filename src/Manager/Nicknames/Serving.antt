-- ===== src/Manager/Nicknames/Serving.antt =====
-- Any sequence of devices that come and go: the set of nicknames refines an allocator that grants
-- the least free number.
use logiops.Prelude.{
  ℕ, suc, ◌+◌, ◌≤◌, ◌<◌, ◌≡◌, Bool, true, false, List, [], ◌∷◌, ◌==◌, if◌then◌else◌, arith, refl,
  subst, ◌∙◌,
}
use logiops.Prelude.Exn.{Result, ok, ◌>>=◌}
use logiops.Prelude.Sets.{insert, erase, contains}
use logiops.Manager.Nicknames.{drop_nickname, new_device_nickname, new_receiver_nickname, int_max}
use logiops.Prelude.Sets.{
  AscendsFrom, AllBelow, AllBelow-weaken, insert-AscendsFrom, insert-AllBelow, erase-AscendsFrom,
  erase-AllBelow, contains-insert, contains-erase,
}
use logiops.Manager.Nicknames.Least.{
  first_missing, first_missing-le, first_missing_free, first_missing_least, new_device_nickname_lem,
  new_receiver_nickname_lem,
}
use mathlib.Core.Path.{fun_ext}

-- The two sets of nicknames, and what serves each.
pub data Kind : Type 0 where
  device receiver : Kind

abbrev pub new_nickname : Kind → List ℕ → Result (ℕ × List ℕ)
new_nickname device = new_device_nickname
new_nickname receiver = new_receiver_nickname

new_nickname_lem :
    (kind : Kind) (b : ℕ) (s : List ℕ)
    → AscendsFrom 0 s
    → AllBelow b s
    → b ≤ int_max
    → new_nickname kind s ≡ ok (first_missing 0 s, insert (first_missing 0 s) s)
new_nickname_lem device b s a l h = new_device_nickname_lem b s a l h
new_nickname_lem receiver b s a l h =
    new_receiver_nickname_lem s ∙ new_device_nickname_lem b s a l h

-- An object of the kind is made, or one is destroyed whose nickname was `n`.
pub data Op : Type 0 where
  acquire : Op
  release : ℕ → Op

-- The operations in their order, on the set: the nicknames that were given, and the set at the end.
unfoldable pub run : Kind → List Op → List ℕ → Result (List ℕ × List ℕ)
run kind [] s = ok ([], s)
run kind (acquire ∷ ops) s = do
  (n, s') ← new_nickname kind s
  (given, end) ← run kind ops s'
  ok (n ∷ given, end)
run kind (release n ∷ ops) s = run kind ops (drop_nickname n s)

-- The allocator: which numbers are held.
abbrev pub Held : Type 0
Held = ℕ → Bool

abbrev pub mark : ℕ → Bool → Held → Held
mark n b held k = if k == n then b else held k

-- `Grants held ops given end`: an acquisition is granted the least number that is not held.
pub data Grants : Held → List Op → List ℕ → Held → Type 0 where
  finish : {held : Held} → Grants held [] [] held
  grant :
      {held end : Held} {ops : List Op} {given : List ℕ} (n : ℕ)
      → held n ≡ false
      → ((m : ℕ) → m < n → held m ≡ true)
      → Grants (mark n true held) ops given end
      → Grants held (acquire ∷ ops) (n ∷ given) end
  free :
      {held end : Held} {ops : List Op} {given : List ℕ} (n : ℕ)
      → Grants (mark n false held) ops given end
      → Grants held (release n ∷ ops) given end

abbrev pub acquisitions : List Op → ℕ
acquisitions [] = 0
acquisitions (acquire ∷ ops) = suc (acquisitions ops)
acquisitions (release n ∷ ops) = acquisitions ops

abbrev pub holds : List ℕ → Held
holds s k = contains k s

holds-insert : (n : ℕ) (s : List ℕ) → holds (insert n s) ≡ mark n true (holds s)
holds-insert n s = fun_ext (λ k. contains-insert k n s)

holds-erase : (n : ℕ) (s : List ℕ) → AscendsFrom 0 s → holds (erase n s) ≡ mark n false (holds s)
holds-erase n s a = fun_ext (λ k. contains-erase k n 0 s a)

-- A run from a set below `b`, which ends without a failure and does what the allocator does.
abbrev Served : Kind → List Op → List ℕ → Type 0
Served kind ops s =
    (given : List ℕ) × (end : List ℕ) × (run kind ops s ≡ ok (given, end))
    × Grants (holds s) ops given (holds end)

run_from :
    (kind : Kind) (ops : List Op) (b : ℕ) (s : List ℕ)
    → AscendsFrom 0 s
    → AllBelow b s
    → b + acquisitions ops ≤ int_max
    → Served kind ops s
unfolding run
run_from kind [] b s a l h = ([], s, refl, finish)
run_from kind (acquire ∷ ops) b s a l h =
    let n = first_missing 0 s in
    let below = first_missing-le 0 b s (omega arith) l in
    let (given, end, runs, grants) =
      run_from kind ops (suc b) (insert n s) (insert-AscendsFrom 0 n s (omega arith) a)
        (insert-AllBelow (suc b) n s (omega arith) (AllBelow-weaken b (suc b) s (omega arith) l))
        (omega arith) in
    (
      n ∷ given,
      end,
      rw (new_nickname_lem kind b s a l (omega arith), runs),
      grant n (first_missing_free 0 s a) (λ m lt. first_missing_least 0 m s a (omega arith) lt)
          (subst (λ held. Grants held ops given (holds end)) (holds-insert n s) grants),
    )
run_from kind (release n ∷ ops) b s a l h =
    let (given, end, runs, grants) =
      run_from kind ops b (erase n s) (erase-AscendsFrom 0 n s a) (erase-AllBelow b n s l) h in
    (
      given,
      end,
      runs,
      free n (subst (λ held. Grants held ops given (holds end)) (holds-erase n s a) grants),
    )

-- For either kind, from the empty set, any sequence of fewer than 2^31 acquisitions and any removals succeeds, and
-- each nickname given is the least number that is not held by then.
pub run-Grants :
    (kind : Kind) (ops : List Op)
    → acquisitions ops ≤ int_max
    → (given : List ℕ) × (end : List ℕ) × (run kind ops [] ≡ ok (given, end))
      × Grants (λ k. false) ops given (holds end)
unfolding contains
run-Grants kind ops h = run_from kind ops 0 [] tt tt (omega arith)
