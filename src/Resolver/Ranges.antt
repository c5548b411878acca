-- ===== src/Resolver/Ranges.antt =====
-- The offsets that `ResolveTypeAddress` returns.
use side_eye_go.Prelude.{
  ℕ, ◌-◌, ◌≡◌, ◌≢◌, refl, ap, ◌&&◌, arith, true, false, ok, ltb, leb, ◌==◌, ◌∙◌, if◌then◌else◌,
  ◌||◌, some, add64,
}
use side_eye_go.Prelude.{>>=_ok, pure, get, modify, choose}
use side_eye_go.Memory.{Process, peek_word}
use side_eye_go.Resolver.{
  GoRuntimeTypeResolver, ModuledataTypeRange, read_word, maybe_resolve_range, resolve_type_address,
}

-- The offset of an address in a range of types, or 0 outside of it.
abbrev pub offset_in : ModuledataTypeRange → ℕ → ℕ
offset_in r addr = if leb r.start addr && ltb addr r.end then addr - r.start else 0

offset_in_lem :
    (r : ModuledataTypeRange) (addr : ℕ)
    → (if ltb addr r.start || leb r.end addr then 0 else addr - r.start) ≡ offset_in r addr
offset_in_lem r addr = ground arith

-- A range that is cached is used as it is.
pub resolve_type_address_cached :
    (p : Process) (addr : ℕ) (m : GoRuntimeTypeResolver)
    → m.cached.start ≢ 0
    → resolve_type_address p addr m ≡ ok (offset_in m.cached addr, m)
unfolding resolve_type_address maybe_resolve_range get pure choose
resolve_type_address_cached p addr m h =
    let some_range : m.cached.start == 0 ≡ false = ground arith in
    >>=_ok _ _ (>>=_ok _ _ refl ∙ rw some_range refl)
    ∙ >>=_ok _ _ refl
    ∙ ap (λ n. ok (n, m)) (offset_in_lem m.cached addr)

read_word_ok :
    {S : Type 0} (p : Process) (addr v : ℕ) (s : S)
    → peek_word p addr 8 ≡ some v
    → read_word p addr s ≡ ok (v, s)
unfolding read_word
read_word_ok p addr v s e = rw (e, read_word) refl

-- The first use reads the range at the two offsets of the module data and caches it; this use and
-- every later one, at any address, answer from that range.
pub resolve_type_address_first :
    (p : Process) (addr addr' types etypes : ℕ) (m : GoRuntimeTypeResolver)
    → m.cached.start ≡ 0
    → peek_word p (add64 m.cfg.first_moduledata m.cfg.types_offset) 8 ≡ some types
    → peek_word p (add64 m.cfg.first_moduledata m.cfg.etypes_offset) 8 ≡ some etypes
    → types ≢ 0
    → (m' : GoRuntimeTypeResolver) × (m'.cached ≡ record { start = types; end = etypes })
      × (resolve_type_address p addr m ≡ ok (offset_in m'.cached addr, m'))
      × (resolve_type_address p addr' m' ≡ ok (offset_in m'.cached addr', m'))
unfolding resolve_type_address maybe_resolve_range get pure choose modify
resolve_type_address_first p addr addr' types etypes m h e e' nz =
    let m' : GoRuntimeTypeResolver = record m { cached = record { start = types; end = etypes } } in
    let no_range : m.cached.start == 0 ≡ true = ground arith in
    (
      m',
      refl,
      >>=_ok _ _ (
            >>=_ok _ _ refl
            ∙ rw no_range (
                >>=_ok _ _ (read_word_ok p _ types m e)
                ∙ >>=_ok _ _ (read_word_ok p _ etypes m e')))
          ∙ >>=_ok _ _ refl
          ∙ ap (λ n. ok (n, m')) (offset_in_lem m'.cached addr),
      resolve_type_address_cached p addr' m' nz,
    )
