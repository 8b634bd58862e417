-- ===== src/Hidpp20/ReprogControls/CidMap.antt =====
-- The controls that `initCidMap` finds: what a device sends of a control is read back, and each
-- control of the device is in the map.
use logiops.Prelude.{
  ℕ, bit_or, zero, suc, ◌+◌, ◌*◌, ◌/◌, ◌%◌, ◌≤◌, ◌<◌, ◌≡◌, ◌≢◌, true, false, none, some, List, [],
  ◌∷◌, ◌++◌, length, get_or, ◌==◌, Bool-cases, ==_iff, arith, refl, ap, sym, ◌∙◌, inl, inr, subst,
}
use logiops.Prelude.Exn.{ok}
use logiops.Prelude.Bits.{or_bytes'}
use logiops.Prelude.Bytes.{byte_at_inside}
use logiops.Manager.Maps.{find, emplace}
use logiops.Manager.Lookups.{find-emplace, find-emplace_ne}
use logiops.Hidpp20.ReprogControls.{
  Call, ControlInfo, word_at, get_control_count, get_control_info, Cids, read_controls,
  init_cid_map, get_control_id_info, look_up, get_control_count_function, get_control_info_function,
}

-- The bytes of a control, as a device sends them.
abbrev pub control_bytes : ControlInfo → List ℕ
control_bytes info =
    (info.control_id / 256)
    ∷ (info.control_id % 256)
    ∷ (info.task_id / 256)
    ∷ (info.task_id % 256)
    ∷ info.flags
    ∷ info.position
    ∷ info.group
    ∷ info.group_mask
    ∷ info.additional_flags
    ∷ []

-- A device whose controls are these. A response is as long as the report that carries it: more bytes
-- follow those that are read.
pub record Serves (call : Call) (count : ℕ) (controls : ℕ → ControlInfo) : Type 0 where
  pub after_count : List ℕ
  pub counted : call get_control_count_function [] ≡ ok (count ∷ after_count)
  pub after_control : ℕ → List ℕ
  pub sent :
      (i : ℕ)
      → i < count
      → call get_control_info_function (i ∷ []) ≡ ok (control_bytes (controls i) ++ after_control i)

word_back : (x : ℕ) → bit_or (x % 256) (x / 256 * 256) ≡ x
word_back x = or_bytes' (x / 256) (x % 256) (omega arith) ∙ omega arith

-- The two bytes of a number, wherever they stand.
word_there :
    (bytes : List ℕ) (i x : ℕ)
    → i + 1 < length bytes
    → get_or bytes i 0 ≡ x / 256
    → get_or bytes (i + 1) 0 ≡ x % 256
    → word_at bytes i ≡ ok x
word_there bytes i x h high low =
    rw
      (byte_at_inside bytes (i + 1) h, byte_at_inside bytes i (omega arith), low, high, word_back x)
      refl

read_back :
    (info : ControlInfo) (rest : List ℕ) (call : Call) (i : ℕ)
    → call get_control_info_function (i ∷ []) ≡ ok (control_bytes info ++ rest)
    → get_control_info call i ≡ ok info
unfolding get_control_info
read_back info rest call i e =
    let bytes = control_bytes info ++ rest in
    rw
      (
        e,
        word_there bytes 0 info.control_id (omega arith) refl refl,
        word_there bytes 2 info.task_id (omega arith) refl refl,
        byte_at_inside bytes 4 (omega arith),
        byte_at_inside bytes 5 (omega arith),
        byte_at_inside bytes 6 (omega arith),
        byte_at_inside bytes 7 (omega arith),
        byte_at_inside bytes 8 (omega arith),
      )
      refl

get_control_info-back :
    (call : Call) (count : ℕ) (controls : ℕ → ControlInfo) (i : ℕ)
    → Serves call count controls
    → i < count
    → get_control_info call i ≡ ok (controls i)
get_control_info-back call count controls i s h =
    read_back (controls i) (s.after_control i) call i (s.sent i h)

-- Before the first call.
abbrev pub unread : Cids
unread = record { map = []; initialized = false }

looked_up :
    (device_index k : ℕ) (s : Cids) (info : ControlInfo)
    → find k s.map ≡ some info
    → look_up device_index k (s, ok tt) ≡ (s, ok info)
unfolding look_up
looked_up device_index k s info h = rw (h, look_up)

module _ (call : Call) (count : ℕ) (controls : ℕ → ControlInfo)
    (serves : Serves call count controls)
    (distinct : (a b : ℕ)
      → a < b
      → b < count
      → (controls a).control_id ≢ (controls b).control_id) where
  -- The loop, when each control is read.
  read_step :
      (n i : ℕ) (map : List (ℕ × ControlInfo))
      → i < count
      → read_controls call (suc n) i map
        ≡ read_controls call n (suc i) (emplace (controls i).control_id (controls i) map)
  unfolding read_controls
  read_step n i map h =
      rw (get_control_info-back call count controls i serves h, read_controls) (refl)

  read_ends :
      (n i : ℕ) (map : List (ℕ × ControlInfo))
      → i + n ≤ count
      → (read_controls call n i map).1 ≡ ok tt
  unfolding read_controls
  read_ends zero i map h = refl
  read_ends (suc n) i map h =
      ap (λ x. x.1) (read_step n i map (omega arith))
      ∙ read_ends n (suc i) (emplace (controls i).control_id (controls i) map) (omega arith)

  -- A control that was read before stays.
  read_kept :
      (n i j : ℕ) (map : List (ℕ × ControlInfo))
      → i + n ≤ count
      → j < i
      → find (controls j).control_id (read_controls call n i map).0
        ≡ find (controls j).control_id map
  unfolding read_controls
  read_kept zero i j map h l = refl
  read_kept (suc n) i j map h l =
      let k = (controls j).control_id in
      ap (λ x. find k x.0) (read_step n i map (omega arith))
      ∙ read_kept n (suc i) j (emplace (controls i).control_id (controls i) map) (omega arith)
          (omega arith)
      ∙ find-emplace_ne (controls i).control_id k (controls i) map (distinct j i l (omega arith))

  read_found :
      (n i j : ℕ) (map : List (ℕ × ControlInfo))
      → i + n ≤ count
      → i ≤ j
      → j < i + n
      → ((a : ℕ) → i ≤ a → a < count → find (controls a).control_id map ≡ none)
      → find (controls j).control_id (read_controls call n i map).0 ≡ some (controls j)
  read_found zero i j map h l u new = absurd (omega arith)
  read_found (suc n) i j map h l u new = elim (Bool-cases (i == j)) [
    | inl same ↦
        subst
          (λ (x : ℕ).
            find (controls x).control_id (read_controls call (suc n) i map).0 ≡ some (controls x))
          ((==_iff i j).0 same)
          (ap (λ x. find (controls i).control_id x.0) (read_step n i map (omega arith))
            ∙ read_kept n (suc i) i (emplace (controls i).control_id (controls i) map) (omega arith)
                (omega arith)
            ∙ find-emplace (controls i).control_id (controls i) map
                (new i (omega arith) (omega arith)))
    | inr other ↦
        ap (λ x. find (controls j).control_id x.0) (read_step n i map (omega arith))
        ∙ read_found n (suc i) j (emplace (controls i).control_id (controls i) map) (omega arith)
            (ground arith) (omega arith)
            (λ a la ua.
              find-emplace_ne (controls i).control_id (controls a).control_id (controls i) map
                (λ e. distinct i a (omega arith) ua (sym e))
              ∙ new a (omega arith) ua)
  ]

  -- The map that `initCidMap` makes, and its end.
  init_ready :
      init_cid_map call (record { map = []; initialized = false })
      ≡ (record { map = (read_controls call count 0 []).0; initialized = true }, ok tt)
  unfolding init_cid_map get_control_count
  init_ready =
      let ends = read_ends count 0 [] (omega arith) in
      rw
        (
          serves.counted,
          byte_at_inside (count ∷ serves.after_count) 0 (omega arith),
          init_cid_map,
          ends,
        )
        (refl)

  -- For a device whose controls have different numbers, `getControlIdInfo` gives for the number of a
  -- control what the device sent of it, and then, whatever the device answers from there on, for the
  -- number of each control what was sent before, without a change of the map.
  pub get_control_id_info-found :
      (later : Call) (device_index j l : ℕ)
      → j < count
      → l < count
      → ((get_control_id_info call device_index (controls j).control_id unread).1 ≡ ok (controls j))
        × (get_control_id_info later device_index
              (controls l).control_id
              (get_control_id_info call device_index (controls j).control_id unread).0
            ≡ (
              (get_control_id_info call device_index (controls j).control_id unread).0,
              ok (controls l),
            ))
  unfolding get_control_id_info find init_cid_map
  get_control_id_info-found later device_index j l h hl =
      let found = λ (n : ℕ) (u : n < count).
        read_found count 0 n [] (omega arith) (omega arith) (omega arith) (λ a l u. refl) in
      let s : Cids = record { map = (read_controls call count 0 []).0; initialized = true } in
      let to : get_control_id_info call device_index (controls j).control_id unread
          ≡ (s, ok (controls j)) =
        ap (look_up device_index (controls j).control_id) init_ready
        ∙ looked_up device_index (controls j).control_id s (controls j) (found j h) in
      (
        ap (λ x. x.1) to,
        subst
            (λ x.
              get_control_id_info later device_index (controls l).control_id x
              ≡ (x, ok (controls l)))
            (sym (ap (λ x. x.0) to))
            (looked_up device_index (controls l).control_id s (controls l) (found l hl)),
      )
