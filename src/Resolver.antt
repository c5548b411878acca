-- ===== src/Resolver.antt =====
-- `goRuntimeTypeResolver` and `typeIdResolver` of internal/snapshot/snapshot.go.
-- The address of `runtime.firstmoduledata` comes from the Go runtime (internal/moduledata).
pub mod Ranges
use side_eye_go.Prelude.{ℕ, ◌||◌, Option, some, none, ltb, leb, ◌==◌, if◌then◌else◌, add64, ◌-◌}
use side_eye_go.Prelude.{ok, trap, fault, M, pure, get, modify, choose, ◌>>=◌, ◌>>◌}
use side_eye_go.Memory.{Process, peek_word, or_zero}
use side_eye_go.Program.{SnapshotProgram}

pub record ModuledataTypeRange : Type 0 where
  pub start : ℕ
  pub end : ℕ

pub record ModuledataConfig : Type 0 where
  pub first_moduledata : ℕ
  pub types_offset : ℕ
  pub etypes_offset : ℕ

pub record GoRuntimeTypeResolver : Type 0 where
  pub cfg : ModuledataConfig
  pub cached : ModuledataTypeRange

unfoldable pub make_go_runtime_type_resolver : ModuledataConfig → GoRuntimeTypeResolver
make_go_runtime_type_resolver cfg = record { cfg = cfg; cached = record { start = 0; end = 0 } }

-- A plain read of the process' memory; there is no recovery from a fault outside `Dereference`.
unfoldable pub read_word : {S : Type 0} → Process → ℕ → M S ℕ
read_word p addr s = elim (peek_word p addr 8) [ none ↦ trap fault | some v ↦ ok (v, s) ]

module _ (p : Process) where
  unfoldable pub maybe_resolve_range : M GoRuntimeTypeResolver (Unit {0})
  maybe_resolve_range = do
    m ← get
    choose (m.cached.start == 0)
        (do
          types ← read_word p (add64 m.cfg.first_moduledata m.cfg.types_offset)
          etypes ← read_word p (add64 m.cfg.first_moduledata m.cfg.etypes_offset)
          modify (λ m. record m { cached = record { start = types; end = etypes } }))
        (pure tt)

  unfoldable pub resolve_type_address : ℕ → M GoRuntimeTypeResolver ℕ
  resolve_type_address addr = do
    maybe_resolve_range
    m ← get
    pure (if ltb addr m.cached.start || leb m.cached.end addr then 0 else addr - m.cached.start)

-- A key that is missing from the map gives 0.
unfoldable pub resolve_type_id : SnapshotProgram → ℕ → ℕ
resolve_type_id prog addr = or_zero (prog.go_runtime_type_to_type_id addr)
