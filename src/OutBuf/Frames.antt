-- ===== src/OutBuf/Frames.antt =====
-- The frames of a goroutine in internal/snapshot/out_buf.go: PrepareFrameData, and ConcludeFrameData
-- behind whatever the machine wrote for the frame.
use side_eye_go.Prelude.{
  ℕ, ◌+◌, ◌-◌, ◌%◌, ◌^◌, ◌≤◌, ◌<◌, ◌≡◌, ◌⊎◌, inl, refl, ◌∙◌, arith, true, false, some, ok, >>=_ok,
  pure, get, demand, choose, sub32, ltb, le→not_ltb, le→leb, IsU32,
}
use side_eye_go.Memory.{Bytes, word, poke}
use side_eye_go.Memory.Words.{
  word-poke_32, word-poke_prefix, word-poke_apart, word_congr, poke_outside,
}
use side_eye_go.Framing.{QueueEntry}
use side_eye_go.OutBuf.{OutBuf, len_of, reslice}
use side_eye_go.OutBuf.Framed.{padded_len, prepare_frame_data, conclude_frame_data}
use side_eye_go.OutBuf.Entries.{
  rounded, padded_len-eq-rounded, put_entry, store_ok, load_ok, store_entry_lem,
}
use side_eye_go.OutBuf.Writes.{Header, put_entry-Header, put_entry_outside}

-- What the operands of a frame are, and where it fits without a wrap of uint32.
pub record HasRoom (o : OutBuf) (type_id prog_id data_len depth : ℕ) : Type 0 where
  pub cap_word : o.cap < 2 ^ 32
  pub end_word : o.len + data_len + 48 < 2 ^ 32
  pub type_word : IsU32 type_id
  pub prog_word : IsU32 prog_id
  pub depth_word : IsU32 depth
  pub room : o.len + rounded data_len + 32 ≤ o.cap

abbrev pub frame_entry : ℕ → ℕ → QueueEntry
frame_entry type_id data_len = record { type_id = type_id; len = data_len + 8; addr = 0 }

-- A frame that was prepared behind `o`: the slice with its header, its entry, and the program and the
-- depth behind the data; the header holds the offset of the entry for the time being.
pub record Prepared (o o' : OutBuf) (type_id prog_id data_len depth : ℕ) : Type 0 where
  pub length : o'.len ≡ o.len + rounded data_len + 32
  pub capacity : o'.cap ≡ o.cap
  pub start : word o'.mem o.len 4 ≡ o.len + 8
  pub entry : Header o' (o.len + 8) (frame_entry type_id data_len)
  pub prog_field : word o'.mem (o.len + data_len + 24) 4 ≡ prog_id
  pub depth_field : word o'.mem (o.len + data_len + 28) 4 ≡ depth
  pub before : (j : ℕ) → j < o.len → o'.mem j ≡ o.mem j

reslice_ok : (n : ℕ) (o : OutBuf) → n ≤ o.cap → reslice n o ≡ ok (tt, record o { len = n })
unfolding reslice
reslice_ok n o h = rw (le→leb n o.cap h) refl

-- A slice behind a prepared frame: longer, perhaps, and with the start in the header still.
pub record Continued (o later : OutBuf) : Type 0 where
  pub start : word later.mem o.len 4 ≡ o.len + 8
  pub longer : o.len + 32 ≤ later.len
  pub within_cap : later.len ≤ later.cap
  pub cap_word : later.cap < 2 ^ 32

-- A frame that was concluded: the header holds the length of what stands behind it.
pub record Concluded (o later o' : OutBuf) : Type 0 where
  pub length : o'.len ≡ later.len
  pub header : word o'.mem o.len 4 + (o.len + 8) ≡ o'.len
  pub others : (j : ℕ) → (j < o.len) ⊎ (o.len + 4 ≤ j) → o'.mem j ≡ later.mem j

conclude_lem :
    (o later : OutBuf)
    → Continued o later
    → (o' : OutBuf) × (conclude_frame_data (some o.len) later ≡ ok (tt, o')) × Concluded o later o'
unfolding conclude_frame_data get len_of demand
conclude_lem o later c =
    let n = sub32 (later.len % 2 ^ 32) (o.len + 8) in
    let value : n ≡ later.len - (o.len + 8) = omega (arith, c.cap_word, c.within_cap, c.longer) in
    let o' : OutBuf = record later { mem = poke later.mem o.len 4 n } in
    (
      o',
      >>=_ok _ _ refl
          ∙ >>=_ok _ _ refl
          ∙ >>=_ok _ _ (load_ok 4 o.len later (omega (arith, c.within_cap, c.longer)))
          ∙ rw c.start (store_ok 4 o.len n later (omega (arith, c.within_cap, c.longer))),
      record {
        length = refl;
        header =
            rw (word-poke_32 later.mem o.len n (omega (arith, value, c.cap_word, c.within_cap)))
              (omega (arith, value, c.longer));
        others = λ j h. poke_outside later.mem o.len 4 n j h;
      },
    )

module _ (o : OutBuf) (type_id prog_id data_len depth : ℕ)
    (f : HasRoom o type_id prog_id data_len depth) where
  -- The writes, in their order.
  abbrev with_start : Bytes
  with_start = poke o.mem o.len 8 (o.len + 8)

  abbrev with_entry : Bytes
  with_entry = put_entry with_start (o.len + 8) (frame_entry type_id data_len)

  abbrev with_prog : Bytes
  with_prog = poke with_entry (o.len + data_len + 24) 4 prog_id

  abbrev prepared : OutBuf
  prepared = record o {
    len = o.len + rounded data_len + 32;
    mem = poke with_prog (o.len + data_len + 28) 4 depth;
  }

  above : (j : ℕ) → j < o.len + data_len + 24 → prepared.mem j ≡ with_entry j
  above j lt =
      poke_outside with_prog (o.len + data_len + 28) 4 depth j (inl (omega arith))
      ∙ poke_outside with_entry (o.len + data_len + 24) 4 prog_id j (inl (omega arith))

  prepared-Prepared : Prepared o prepared type_id prog_id data_len depth
  prepared-Prepared = record {
    length = refl;
    capacity = refl;
    start =
        word-poke_apart with_prog (o.len + data_len + 28) 4 depth o.len 4 (inl (omega arith))
        ∙ word-poke_apart with_entry (o.len + data_len + 24) 4 prog_id o.len 4 (inl (omega arith))
        ∙ word_congr with_entry with_start o.len 4
            (λ j a b. put_entry_outside with_start (o.len + 8) _ j (inl (omega arith)))
        ∙ word-poke_prefix o.mem o.len 4 8 (o.len + 8) (omega arith)
        ∙ omega (arith, f.end_word);
    entry =
        put_entry-Header prepared with_start (o.len + 8) (frame_entry type_id data_len)
          (record {
            type_word = f.type_word;
            len_word = omega (arith, f.end_word);
            addr_word = omega arith;
          })
          (λ j a b. above j (omega arith));
    prog_field =
        word-poke_apart with_prog (o.len + data_len + 28) 4 depth (o.len + data_len + 24) 4
          (inl (omega arith))
        ∙ word-poke_32 with_entry (o.len + data_len + 24) prog_id f.prog_word;
    depth_field = word-poke_32 with_prog (o.len + data_len + 28) depth f.depth_word;
    before = λ j lt.
        above j (omega arith)
        ∙ put_entry_outside with_start (o.len + 8) _ j (inl (omega arith))
        ∙ poke_outside o.mem o.len 8 (o.len + 8) j (inl lt);
  }

  prepare_room :
      prepare_frame_data type_id prog_id data_len depth o
      ≡ ok ((some o.len, o.len + 24, true), prepared)
  unfolding prepare_frame_data get choose pure len_of reslice
  prepare_room =
      let at : o.len % 2 ^ 32 ≡ o.len = omega (arith, f.end_word) in
      let entry_at : (o.len + 8) % 2 ^ 32 ≡ o.len + 8 = omega (arith, f.end_word) in
      let data_at : (o.len + 8 + 16) % 2 ^ 32 ≡ o.len + 24 = omega (arith, f.end_word) in
      let prog_at : (o.len + 24 + data_len) % 2 ^ 32 ≡ o.len + data_len + 24 =
        omega (arith, f.end_word) in
      let depth_at : (o.len + data_len + 24 + 4) % 2 ^ 32 ≡ o.len + data_len + 28 =
        omega (arith, f.end_word) in
      let size : (data_len + 8) % 2 ^ 32 ≡ data_len + 8 = omega (arith, f.end_word) in
      let padded : padded_len data_len ≡ rounded data_len =
        padded_len-eq-rounded data_len (omega (arith, f.end_word)) in
      let end : o.len + 8 + 16 + rounded data_len + 8 ≡ o.len + rounded data_len + 32 =
        omega arith in
      let fits : ltb o.cap (o.len + rounded data_len + 32) ≡ false = le→not_ltb o.cap _ f.room in
      >>=_ok _ _ refl
      ∙ rw (padded, end, fits, at, entry_at, data_at, prog_at, depth_at, size)
          (>>=_ok _ _ (reslice_ok (o.len + rounded data_len + 32) o f.room)
            ∙ >>=_ok _ _ (store_ok 8 o.len (o.len + 8) _ (omega (arith, f.room)))
            ∙ >>=_ok _ _ (
                store_entry_lem (o.len + 8) (frame_entry type_id data_len) _
                  (omega (arith, f.room)))
            ∙ >>=_ok _ _ (store_ok 4 (o.len + data_len + 24) prog_id _ (omega (arith, f.room)))
            ∙ >>=_ok _ _ (store_ok 4 (o.len + data_len + 28) depth _ (omega (arith, f.room))))

-- PrepareFrameData of a frame that fits puts its entry, its program and its depth in place behind what
-- stood in the buffer. ConcludeFrameData, at any later time at which the header still holds what was
-- put there, writes the number of bytes behind the header into it, and changes nothing else.
pub frame_data-Concluded :
    (o later : OutBuf) (type_id prog_id data_len depth : ℕ)
    → HasRoom o type_id prog_id data_len depth
    → Continued o later
    → ((o' : OutBuf) × (prepare_frame_data type_id prog_id data_len depth o
          ≡ ok ((some o.len, o.len + 24, true), o'))
        × Prepared o o' type_id prog_id data_len depth)
      × ((o' : OutBuf) × (conclude_frame_data (some o.len) later ≡ ok (tt, o'))
          × Concluded o later o')
frame_data-Concluded o later type_id prog_id data_len depth f c = (
  (
    prepared o type_id prog_id data_len depth f,
    prepare_room o type_id prog_id data_len depth f,
    prepared-Prepared o type_id prog_id data_len depth f,
  ),
  conclude_lem o later c,
)
