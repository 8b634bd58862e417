-- ===== src/Hidpp10/Receiver/Events.antt =====
-- How the name of a discovered device is put together from its parts
-- (src/logid/backend/hidpp10/Receiver.cpp).
use logiops.Prelude.{
  ℕ, suc, zero, ◌+◌, ◌-◌, ◌*◌, ◌<◌, ◌≤◌, ◌≡◌, ◌≢◌, refl, ap, ◌∙◌, true, false, Bool-cases, inl, inr,
  ltb, ◌==◌, List, get_or, set, resize, length, length-set, get_or-set_self, get_or-set_ne, arith,
  if◌then◌else◌,
}
use logiops.Prelude.Exn.{ok}
use logiops.Hidpp.Report.{Report, params, sub_id, address}
use logiops.Hidpp10.Defs.{device_discovered}
use logiops.Hidpp10.Receiver.{DeviceDiscoveryEvent, fill_block, fill_device_discovery_event}

fill_block_step :
    (n i start : ℕ) (data' name : List ℕ)
    → ltb (start + i) (length name) ≡ true
    → fill_block (suc n) i start data' name
      ≡ fill_block n (suc i) start data' (set name (start + i) (get_or data' (i + 3) 0))
unfolding fill_block
fill_block_step n i start data' name e = rw e refl

fill_block_end :
    (n i start : ℕ) (data' name : List ℕ)
    → ltb (start + i) (length name) ≡ false
    → fill_block (suc n) i start data' name ≡ (name, true)
unfolding fill_block
fill_block_end n i start data' name e = rw e refl

-- A block keeps the length, and is past the end of the name exactly when the name is shorter than
-- where the block ends.
fill_block_lem :
    (n i start : ℕ) (data' name : List ℕ)
    → start + i ≤ length name
    → (length (fill_block n i start data' name).0 ≡ length name)
      × ((fill_block n i start data' name).1 ≡ ltb (length name) (start + i + n))
unfolding fill_block
fill_block_lem zero i start data' name h = (refl, ground arith)
fill_block_lem (suc n) i start data' name h = elim (Bool-cases (ltb (start + i) (length name))) [
  | inl e ↦
      let name' = set name (start + i) (get_or data' (i + 3) 0) in
      let l = length-set name (start + i) (get_or data' (i + 3) 0) in
      let lt : start + i < length name = ground arith in
      let w = fill_block_lem n (suc i) start data' name' (omega (arith, l)) in
      rw (fill_block_step n i start data' name e) (
        w.0 ∙ l,
        w.1
            ∙ ap (λ t. ltb t (start + suc i + n)) l
            ∙ ap (ltb (length name)) {x = start + suc i + n} {y = start + i + suc n} (omega arith),
      )
  | inr e ↦ rw (fill_block_end n i start data' name e) (refl, ground arith)
]

fill_block_before :
    (n i start j : ℕ) (data' name : List ℕ)
    → j < start + i
    → get_or (fill_block n i start data' name).0 j 0 ≡ get_or name j 0
unfolding fill_block
fill_block_before zero i start j data' name h = refl
fill_block_before (suc n) i start j data' name h =
    elim (Bool-cases (ltb (start + i) (length name))) [
      | inl e ↦
          let c = get_or data' (i + 3) 0 in
          rw (fill_block_step n i start data' name e) (
            fill_block_before n (suc i) start j data' (set name (start + i) c) (omega arith)
            ∙ get_or-set_ne name (start + i) j c 0 (λ q. absurd (omega arith)))
      | inr e ↦ rw (fill_block_end n i start data' name e) refl
    ]

fill_block_inside :
    (n i start k : ℕ) (data' name : List ℕ)
    → k < n
    → start + i + k < length name
    → get_or (fill_block n i start data' name).0 (start + i + k) 0 ≡ get_or data' (i + k + 3) 0
unfolding fill_block
fill_block_inside zero i start k data' name h l = absurd (omega arith)
fill_block_inside (suc n) i start zero data' name h l =
    let c = get_or data' (i + 3) 0 in
    let e : ltb (start + i) (length name) ≡ true = ground arith in
    rw (fill_block_step n i start data' name e) (
      ap (λ t. get_or (fill_block n (suc i) start data' (set name (start + i) c)).0 t 0)
        {x = start + i + 0} {y = start + i} (omega arith)
      ∙ fill_block_before n (suc i) start (start + i) data' (set name (start + i) c) (omega arith)
      ∙ get_or-set_self name (start + i) c 0 (omega arith)
      ∙ ap (λ t. get_or data' t 0) {x = i + 3} {y = i + 0 + 3} (omega arith))
fill_block_inside (suc n) i start (suc k) data' name h l =
    let c = get_or data' (i + 3) 0 in
    let e : ltb (start + i) (length name) ≡ true = ground arith in
    rw (fill_block_step n i start data' name e) (
      ap (λ t. get_or (fill_block n (suc i) start data' (set name (start + i) c)).0 t 0)
        {x = start + i + suc k} {y = start + suc i + k} (omega arith)
      ∙ fill_block_inside n (suc i) start k data' (set name (start + i) c) (omega arith)
          (omega (arith, length-set name (start + i) c))
      ∙ ap (λ t. get_or data' t 0) {x = suc i + k + 3} {y = i + suc k + 3} (omega arith))

-- The name before the part that a notification brings.
abbrev pub name_before : List ℕ → Report → List ℕ
name_before name r =
    if get_or (params r) 1 0 == 1 then resize (get_or (params r) 2 0) 0x20 name else name

part_runs :
    (event : DeviceDiscoveryEvent) (r : Report)
    → sub_id r ≡ device_discovered
    → get_or (params r) 1 0 ≢ 0
    → event.seq_num ≡ address r
    → fill_device_discovery_event event r ≡ (
        let b =
          fill_block 13 0
            ((get_or (params r) 1 0 - 1) * 13)
            (params r)
            (name_before event.name r) in
        ok (record event { name = b.0 }, b.1))
unfolding fill_device_discovery_event
part_runs event r sub part seq =
    let f : (get_or (params r) 1 0 == 0) ≡ false = ground arith in
    let g : (event.seq_num == address r) ≡ true = ground arith in rw (sub, f, g) refl

-- Part p of a name, from 1 on, that begins inside the name or at its end: each of its 13 characters
-- that the name has room for takes its place in the name, the length stays, and the event is complete
-- exactly when the name ends before the part does. So a name that ends where a part ends does not
-- complete it.
pub fill_device_discovery_event-part :
    (event : DeviceDiscoveryEvent) (r : Report) (p k : ℕ)
    → sub_id r ≡ device_discovered
    → get_or (params r) 1 0 ≡ suc p
    → event.seq_num ≡ address r
    → p * 13 ≤ length (name_before event.name r)
    → k < 13
    → p * 13 + k < length (name_before event.name r)
    → (name : List ℕ) × (fill_device_discovery_event event r
        ≡ ok (record event { name = name }, ltb (length (name_before event.name r)) (p * 13 + 13)))
      × (length name ≡ length (name_before event.name r))
      × (get_or name (p * 13 + k) 0 ≡ get_or (params r) (k + 3) 0)
fill_device_discovery_event-part event r p k sub part seq h hk l =
    let name = name_before event.name r in
    let start : (get_or (params r) 1 0 - 1) * 13 ≡ p * 13 = omega (arith, part) in
    let w = fill_block_lem 13 0 (p * 13) (params r) name (omega arith) in
    let b = fill_block 13 0 (p * 13) (params r) name in
    (
      b.0,
      part_runs event r sub (omega arith) seq
          ∙ ap
              (λ t.
                let b = fill_block 13 0 t (params r) name in ok (record event { name = b.0 }, b.1))
              start
          ∙ ap (λ t. ok (record event { name = b.0 }, t))
              (w.1
                ∙ ap (λ t. ltb (length name) t) {x = p * 13 + 0 + 13} {y = p * 13 + 13}
                    (omega arith)),
      w.0,
      ap (λ t. get_or b.0 t 0) {x = p * 13 + k} {y = p * 13 + 0 + k} (omega arith)
          ∙ fill_block_inside 13 0 (p * 13) k (params r) name hk (omega arith)
          ∙ ap (λ t. get_or (params r) t 0) {x = 0 + k + 3} {y = k + 3} (omega arith),
    )
