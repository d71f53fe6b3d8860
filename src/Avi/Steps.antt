-- ===== src/Avi/Steps.antt =====
-- nn20clock_avi.c: where a chunk that a walk takes lies.
use videoalarmclock.Prelude.{ℕ, suc, ◌+◌, ◌-◌, ◌*◌, ◌/◌, ◌%◌, ◌^◌, ◌≤◌, ◌<◌, ◌≡◌, true, arith}
use videoalarmclock.Avi.{clamped, padded, room_for_header, chunk_header_bytes, list_type_bytes}
use videoalarmclock.Prelude.Words.{add32, sub32}

-- the largest end at which no offset wraps
abbrev pub last_end : ℕ
last_end = 2 ^ 32 - 2

pub sub32_lem : (a b : ℕ) → b ≤ a → a < 2 ^ 32 → sub32 a b ≡ a - b
sub32_lem a b h k = ground arith

pub add32_lem : (a b : ℕ) → a + b < 2 ^ 32 → add32 a b ≡ a + b
add32_lem a b h = ground arith

pub room_lem :
    (offset end : ℕ) → end < 2 ^ 32 → room_for_header offset end ≡ true → offset + 8 ≤ end
unfolding room_for_header
room_lem offset end h k = ground arith

pub clamped-fits :
    (claimed payload end : ℕ)
    → payload ≤ end
    → end < 2 ^ 32
    → payload + clamped claimed payload end ≤ end
clamped-fits claimed payload end h k = ground arith

pub padded_lem :
    (payload size end : ℕ)
    → payload + size ≤ end
    → end ≤ last_end
    → padded payload size ≡ payload + size + size % 2
padded_lem payload size end h k = ground arith

-- what the walks compute of the chunk at `offset`: where its payload is, the bytes of it before
-- `end`, and where the next chunk is
abbrev pub payload_at : ℕ → ℕ
payload_at offset = add32 offset chunk_header_bytes

abbrev pub size_at : ℕ → ℕ → ℕ → ℕ
size_at offset claimed end = clamped claimed (payload_at offset) end

abbrev pub next_at : ℕ → ℕ → ℕ → ℕ
next_at offset claimed end = padded (payload_at offset) (size_at offset claimed end)

-- None of it wraps.
pub record Taken (offset claimed end : ℕ) : Type 0 where
  pub payload : payload_at offset ≡ offset + 8
  pub inside : payload_at offset + size_at offset claimed end ≤ end
  pub next_low : offset + 8 ≤ next_at offset claimed end
  pub next_high : next_at offset claimed end ≤ end + 1
  pub chunk_end :
      add32 (payload_at offset) (size_at offset claimed end)
      ≡ payload_at offset + size_at offset claimed end

taken_at :
    (payload offset claimed end : ℕ)
    → payload ≡ offset + 8
    → payload ≤ end
    → end ≤ last_end
    → (payload + clamped claimed payload end ≤ end)
      × (offset + 8 ≤ padded payload (clamped claimed payload end))
      × (padded payload (clamped claimed payload end) ≤ end + 1)
      × (add32 payload (clamped claimed payload end) ≡ payload + clamped claimed payload end)
taken_at payload offset claimed end e h k =
    let inside = clamped-fits claimed payload end h (omega arith) in
    let next = padded_lem payload (clamped claimed payload end) end inside k in
    (
      inside,
      rw next (omega (arith)),
      rw next (omega (arith, inside)),
      add32_lem payload (clamped claimed payload end) (omega arith),
    )

pub taken_lem :
    (offset claimed end : ℕ)
    → end ≤ last_end
    → room_for_header offset end ≡ true
    → Taken offset claimed end
taken_lem offset claimed end h k =
    let room = room_lem offset end (omega arith) k in
    let e = add32_lem offset 8 (omega arith) in
    let t = taken_at (payload_at offset) offset claimed end e (omega (arith, e, room)) h in
    record { payload = e; inside = t.0; next_low = t.1; next_high = t.2; chunk_end = t.3 }

pub fuel_left :
    (offset next end fuel : ℕ)
    → offset + 8 ≤ next
    → end + 1 < offset + suc fuel
    → end + 1 < next + fuel
fuel_left offset next end fuel h k = omega arith

-- The contents of a list lie within its chunk.
pub inner_lem :
    (offset payload size end inner chunk_end : ℕ)
    → payload ≡ offset + 8
    → payload + size ≤ end
    → end ≤ last_end
    → 4 ≤ size
    → inner ≡ add32 payload list_type_bytes
    → chunk_end ≡ payload + size
    → (inner ≡ offset + 12) × (inner ≤ chunk_end) × (chunk_end ≤ end)
inner_lem offset payload size end inner chunk_end h0 h1 h2 h3 h4 h5 =
    let e = add32_lem payload list_type_bytes (omega arith) in
    (omega (arith, e), omega (arith, e), omega arith)

pub whole_records :
    (payload size end top : ℕ) → payload + size ≤ end → end ≤ top → payload + size / 16 * 16 ≤ top
whole_records payload size end top h k = omega arith

pub fuel_inside :
    (offset end inner chunk_end fuel : ℕ)
    → inner ≡ offset + 12
    → chunk_end ≤ end
    → end + 1 < offset + suc fuel
    → chunk_end + 1 < inner + fuel
fuel_inside offset end inner chunk_end fuel h k l = omega arith
