-- ===== src/Hidpp10/Receiver/Names.antt =====
-- `getDeviceName` of src/logid/backend/hidpp10/Receiver.cpp. Characters are bytes, and every access
-- of the response and of the string is checked, since the code guards them for Unifying receivers
-- only.
use logiops.Prelude.{
  ℕ, suc, zero, ◌+◌, ◌*◌, ◌/◌, ◌%◌, ◌<◌, ◌≤◌, ◌≡◌, ◌≢◌, ◌⊎◌, inl, inr, refl, ap, ◌∙◌, Bool, true,
  false, Bool-cases, ltb, ◌==◌, ◌&&◌, List, [], ◌∷◌, get_or, set, resize, length, length-set,
  length-resize, arith, if◌then◌else◌,
}
use logiops.Prelude.Exn.{Result, ok, err, ◌>>=◌, division_by_zero, out_of_bounds}
use logiops.Prelude.Bytes.{byte_at, write_at, byte_at_inside}
use logiops.Hidpp.Defs.{long, default_device}
use logiops.Hidpp.Report.{Report}
use logiops.Hidpp10.Defs.{pairing_info_register}
use logiops.Hidpp10.Device.{get_register}

-- The inner loop: `name[base + j] = resp[j + 3]` for `n` values of `j`.
unfoldable pub write_chunk : ℕ → ℕ → ℕ → List ℕ → List ℕ → Result (List ℕ)
write_chunk zero j base resp name = ok name
write_chunk (suc n) j base resp name = do
  c ← byte_at resp (j + 3)
  name' ← write_at name (base + j) c
  write_chunk n (suc j) base resp name'

-- The outer loop from chunk `i` on; `read` reads a part of the name.
unfoldable pub write_chunks : (ℕ → Result (List ℕ)) → ℕ → ℕ → ℕ → List ℕ → List ℕ → Result (List ℕ)
unfolding write_chunk
write_chunks read zero i chunk_size resp name = ok name
write_chunks read (suc zero) i chunk_size resp name =
    write_chunk chunk_size 0 (i * chunk_size) resp name
write_chunks read (suc (suc n)) i chunk_size resp name = do
  name' ← write_chunk chunk_size 0 (i * chunk_size) resp name
  resp' ← read ((i + 1) % 256)
  write_chunks read (suc n) (suc i) chunk_size resp' name'

-- The name of a device of a Bolt receiver.
unfoldable pub read_bolt_name : (ℕ → Result (List ℕ)) → Result (List ℕ)
unfolding write_chunks
read_bolt_name read = do
  resp ← read 1
  size ← byte_at resp 2
  let chunk_size = (length resp + 253) % 256
  (if chunk_size == 0
      then err division_by_zero
      else (let chunks = (size / chunk_size + (if size % chunk_size == 0 then 0 else 1)) % 256 in
          write_chunks read chunks 0 chunk_size resp (resize size 0x20 [])))

-- `for (i = 0; i < size && i + 2 < response.size(); i++) name[i] = response[i + 2]`, with `n` values
-- of `i` left below `size`.
unfoldable pub copy_name : ℕ → ℕ → List ℕ → List ℕ → Result (List ℕ)
copy_name zero i response name = ok name
copy_name (suc n) i response name =
    let rest = (do
      c ← byte_at response (i + 2)
      name' ← write_at name i c
      copy_name n (suc i) response name') in
    if ltb (i + 2) (length response) then rest else ok name

unfoldable pub read_unifying_name : List ℕ → Result (List ℕ)
unfolding copy_name
read_unifying_name response = do
  size ← byte_at response 1
  copy_name size 0 response (resize size 0x20 [])

unfoldable pub get_device_name : (Report → Result Report) → Bool → ℕ → Result (List ℕ)
unfolding read_bolt_name read_unifying_name
get_device_name send true index = read_bolt_name λ part.
    get_register send default_device pairing_info_register ((index + 0x60) % 256 ∷ part ∷ []) long
get_device_name send false index = do
  response ←
      get_register send default_device pairing_info_register ((index + 0x3f) % 256 ∷ 0 ∷ []) long
  read_unifying_name response

write_at_cases :
    (name : List ℕ) (i c : ℕ)
    → (write_at name i c ≡ err out_of_bounds)
      ⊎ ((i ≤ length name)
          × (name' : List ℕ) × (write_at name i c ≡ ok name')
          × (length name' ≡ length name))
unfolding write_at
write_at_cases name i c = elim (Bool-cases (ltb i (length name))) [
  | inl e ↦ inr (ground arith, set name i c, rw e refl, length-set name i c)
  | inr e ↦ elim (Bool-cases ((i == length name) && (c == 0))) [
    | inl f ↦ inr (ground arith, name, rw (e, f) refl, refl)
    | inr f ↦ inl (rw (e, f) refl)
  ]
]

-- A chunk is written as a whole, or it goes out of bounds; it does if it ends behind the terminator.
Fills : Result (List ℕ) → ℕ → ℕ → Type 0
Fills r end len =
    (r ≡ err out_of_bounds)
    ⊎ ((end ≤ len + 1) × (name' : List ℕ) × (r ≡ ok name') × (length name' ≡ len))

write_chunk_ok :
    (n j base : ℕ) (resp name name' : List ℕ)
    → j + 3 < length resp
    → write_at name (base + j) (get_or resp (j + 3) 0) ≡ ok name'
    → write_chunk (suc n) j base resp name ≡ write_chunk n (suc j) base resp name'
unfolding write_chunk
write_chunk_ok n j base resp name name' h e = rw (byte_at_inside resp (j + 3) h, e) refl

write_chunk_err :
    (n j base : ℕ) (resp name : List ℕ)
    → j + 3 < length resp
    → write_at name (base + j) (get_or resp (j + 3) 0) ≡ err out_of_bounds
    → write_chunk (suc n) j base resp name ≡ err out_of_bounds
unfolding write_chunk
write_chunk_err n j base resp name h e = rw (byte_at_inside resp (j + 3) h, e) refl

write_chunk-Fills :
    (n j base : ℕ) (resp name : List ℕ)
    → j + n + 3 ≤ length resp
    → base + j ≤ length name + 1
    → Fills (write_chunk n j base resp name) (base + j + n) (length name)
unfolding Fills write_chunk
write_chunk-Fills zero j base resp name h b = inr (omega arith, name, refl, refl)
write_chunk-Fills (suc n) j base resp name h b =
    elim (write_at_cases name (base + j) (get_or resp (j + 3) 0)) [
      | inl e ↦ inl (write_chunk_err n j base resp name (omega arith) e)
      | inr (le, name', e, l) ↦
          rw (write_chunk_ok n j base resp name name' (omega arith) e)
            (elim (write_chunk-Fills n (suc j) base resp name' (omega arith) (omega (arith, l))) [
              | inl f ↦ inl f
              | inr (le', name'', f, l') ↦ inr (omega (arith, l), name'', f, l' ∙ l)
            ])
    ]

chunks_next :
    (read : ℕ → Result (List ℕ)) (n i : ℕ) (resp resp' name name' : List ℕ)
    → write_chunk 13 0 (i * 13) resp name ≡ ok name'
    → read ((i + 1) % 256) ≡ ok resp'
    → write_chunks read (suc (suc n)) i 13 resp name
      ≡ write_chunks read (suc n) (suc i) 13 resp' name'
unfolding write_chunks
chunks_next read n i resp resp' name name' e f = rw (e, f) refl

chunks_err :
    (read : ℕ → Result (List ℕ)) (n i : ℕ) (resp name : List ℕ)
    → write_chunk 13 0 (i * 13) resp name ≡ err out_of_bounds
    → write_chunks read (suc n) i 13 resp name ≡ err out_of_bounds
unfolding write_chunks
chunks_err read zero i resp name e = e
chunks_err read (suc n) i resp name e = rw e refl

-- The chunks end behind the terminator of the name.
write_chunks-overrun :
    (parts : ℕ → List ℕ) (n i : ℕ) (resp name : List ℕ)
    → ((k : ℕ) → length (parts k) ≡ 16)
    → length resp ≡ 16
    → i * 13 ≤ length name + 1
    → length name + 1 < (i + suc n) * 13
    → write_chunks (λ k. ok (parts k)) (suc n) i 13 resp name ≡ err out_of_bounds
unfolding Fills
write_chunks-overrun parts zero i resp name all h lo hi =
    elim (write_chunk-Fills 13 0 (i * 13) resp name (omega (arith, h)) (omega arith)) [
      | inl e ↦ chunks_err _ zero i resp name e
      | inr (le, name', e, l) ↦ absurd (omega arith)
    ]
write_chunks-overrun parts (suc m) i resp name all h lo hi =
    elim (write_chunk-Fills 13 0 (i * 13) resp name (omega (arith, h)) (omega arith)) [
      | inl e ↦ chunks_err _ (suc m) i resp name e
      | inr (le, name', e, l) ↦
          chunks_next _ m i resp (parts ((i + 1) % 256)) name name' e refl
          ∙ write_chunks-overrun parts m (suc i) (parts ((i + 1) % 256)) name' all
              (all ((i + 1) % 256)) (omega (arith, l)) (omega (arith, l))
    ]

bolt_name_runs :
    (parts : ℕ → List ℕ) (size : ℕ)
    → length (parts 1) ≡ 16
    → get_or (parts 1) 2 0 ≡ size
    → (size % 13 == 0) ≡ false
    → size < 256
    → read_bolt_name (λ k. ok (parts k))
      ≡ write_chunks (λ k. ok (parts k)) (suc (size / 13)) 0 13 (parts 1) (resize size 0x20 [])
unfolding read_bolt_name
bolt_name_runs parts size h s n lt =
    rw (byte_at_inside (parts 1) 2 (omega (arith, h)), s, h, n)
      (ap (λ t. write_chunks (λ k. ok (parts k)) t 0 13 (parts 1) (resize size 0x20 []))
        {x = (size / 13 + 1) % 256} {y = suc (size / 13)} (omega arith))

-- For a device of a Bolt receiver whose answers have 16 bytes, a name whose size modulo 13 is neither 0
-- nor 12 is written past its end.
pub read_bolt_name-overrun :
    (parts : ℕ → List ℕ) (size : ℕ)
    → ((k : ℕ) → length (parts k) ≡ 16)
    → get_or (parts 1) 2 0 ≡ size
    → size < 256
    → size % 13 ≢ 0
    → size % 13 ≢ 12
    → read_bolt_name (λ k. ok (parts k)) ≡ err out_of_bounds
read_bolt_name-overrun parts size all s lt n m =
    let l = length-resize {A = ℕ} size 0x20 [] in
    bolt_name_runs parts size (all 1) s (ground arith) lt
    ∙ write_chunks-overrun parts (size / 13) 0 (parts 1) (resize size 0x20 []) all (all 1)
        (omega arith) (omega (arith, l))
