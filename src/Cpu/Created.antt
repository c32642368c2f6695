-- ===== src/Cpu/Created.antt =====
-- Operations that the CPU device takes: each kind, with the formats and the shapes that it needs.
use distributed_llama.Base.{
  ℕ, suc, ◌%◌, ◌<◌, ◌≡◌, refl, ap, arith, List, [], map, length, some, ok, ◌∙◌, ◌-◌,
}
use distributed_llama.Quants.{NnFloatType, f_32, f_unk}
use distributed_llama.Core.Sizes.{NnSize2D, size0}
use distributed_llama.Core.Pointers.{NnPointerConfig, has_pointer_continuous_memory}
use distributed_llama.Core.OpQuant.{NnOpQuantType, get_op_quant_type}
use distributed_llama.Core.Config.{NnOpCode, NnOpConfig, op_cast, op_matmul}
use distributed_llama.Cpu.Pointers.{NnCpuDevice}
use distributed_llama.Cpu.Kernels.{NnCpuOpContext, NnCpuOpForward, get_cpu_op_forward, op_init}
use distributed_llama.Cpu.Segments.{plan_op, resolve_slots}
use distributed_llama.Cpu.Resolves.{Sized, Resolves, resolve_slots_ok}

module _ (d : NnCpuDevice) where
  -- The context of an operation whose pointers resolve.
  pub record IsContext (op : NnOpConfig) (t t' : NnFloatType) (y x y' x' : ℕ) (c : NnCpuOpContext)
      : Type 0 where
    pub code : c.code ≡ op.code
    pub op_config : c.op_config ≡ op.config
    pub n_batches : c.n_batches ≡ d.net_config.n_batches % 256
    pub input_size : Sized t y x c.input_size
    pub output_size : Sized t' y' x' c.output_size
    pub weight_size : c.weight_size ≡ op.weight_size

  -- The device plans the operation, and initializes it whatever flags are set.
  pub record Created (op : NnOpConfig) : Type 0 where
    pub context : NnCpuOpContext
    pub plan : plan_op d op ≡ ok context
    pub init :
        (flags : List ℕ)
        → length flags ≡ length d.node_config.buffers
        → (flags' : List ℕ) × (op_init d.net_config.pipes d.node_config.buffers context.code context
              flags
            ≡ ok flags')
          × (length flags' ≡ length flags)

  module _ (slots : 0 < d.net_config.n_slots) where
    pub planned :
        (op : NnOpConfig) {t t' : NnFloatType} {y x y' x' : ℕ} (q : NnOpQuantType)
        (f : NnCpuOpForward)
        → Resolves d op.input t y x
        → Resolves d op.output t' y' x'
        → get_op_quant_type t op.weight_size.float_type t' ≡ ok q
        → get_cpu_op_forward op.code q ≡ some f
        → (c : NnCpuOpContext) × (plan_op d op ≡ ok c) × IsContext op t t' y x y' x' c
    unfolding plan_op
    planned op q f i o eq ef =
        let (l, a, b, run, last, (at, ay, ax), (bt, by, bx)) =
          resolve_slots_ok d op i o (d.net_config.n_slots - 1) 0 in
        let n : d.net_config.n_slots ≡ suc (d.net_config.n_slots - 1) = omega arith in
        let run' : resolve_slots d op d.net_config.n_slots 0 ≡ ok l =
          ap (λ k. resolve_slots d op k 0) n ∙ run in
        let quant : get_op_quant_type a.float_type op.weight_size.float_type b.float_type ≡ ok q =
          rw (at, bt) eq in
        (
          record {
            code = op.code;
            forward = f;
            op_config = op.config;
            n_batches = d.net_config.n_batches % 256;
            n_slots = d.net_config.n_slots;
            slot_input = map (λ s. s.0.pntr) l;
            slot_output = map (λ s. s.1.pntr) l;
            input_size = a;
            output_size = b;
            weight_size = op.weight_size;
            has_input_continuous_memory = has_pointer_continuous_memory op.input.type;
            has_output_continuous_memory = has_pointer_continuous_memory op.output.type;
            weight = [];
          },
          rw (run', last, quant, ef) refl,
          record {
            code = refl;
            op_config = refl;
            n_batches = refl;
            input_size = (at, ay, ax);
            output_size = (bt, by, bx);
            weight_size = refl;
          },
        )

  abbrev pub operation :
      NnOpCode → List ℕ → ℕ → NnPointerConfig → NnPointerConfig → NnSize2D → List ℕ → NnOpConfig
  operation code name index input output weight_size config = record {
    code = code;
    name = name;
    index = index;
    input = input;
    output = output;
    weight_size = weight_size;
    config = config;
  }

  module _ (slots : 0 < d.net_config.n_slots) (few : d.net_config.n_batches < 256) (name : List ℕ)
      (index : ℕ) {input output : NnPointerConfig} (config : List ℕ) where
    -- An operation on floats that has no init function.
    pub plain-Created :
        (code : NnOpCode) (f : NnCpuOpForward) {t : NnFloatType} {q : NnOpQuantType} {x y' x' : ℕ}
        → Resolves d input t d.net_config.n_batches x
        → Resolves d output f_32 y' x'
        → get_op_quant_type t f_unk f_32 ≡ ok q
        → get_cpu_op_forward code q ≡ some f
        → ((c : NnCpuOpContext) (flags : List ℕ)
            → op_init d.net_config.pipes d.node_config.buffers code c flags ≡ ok flags)
        → Created (operation code name index input output size0 config)
    plain-Created code f {q = q} i o eq ef none =
        let (c, plan, is) =
          planned slots (operation code name index input output size0 config) q f i o eq ef in
        record {
          context = c;
          plan = plan;
          init = λ flags h. (flags, rw (is.code) (none c flags), refl);
        }

    pub cast-Created :
        {t t' : NnFloatType} {q : NnOpQuantType} {f : NnCpuOpForward} {x : ℕ}
        → Resolves d input t d.net_config.n_batches x
        → Resolves d output t' d.net_config.n_batches x
        → get_op_quant_type t f_unk t' ≡ ok q
        → get_cpu_op_forward op_cast q ≡ some f
        → Created (operation op_cast name index input output size0 config)
    unfolding op_init
    cast-Created {q = q} {f = f} i o eq ef =
        let (c, plan, is) =
          planned slots (operation op_cast name index input output size0 config) q f i o eq ef in
        let (it, iy, ix) = is.input_size in
        let (ot, oy, ox) = is.output_size in
        record {
          context = c;
          plan = plan;
          init = λ flags h. (flags, rw (is.code) (ground (arith, iy, ix, oy, ox)), refl);
        }

    pub matmul-Created :
        {t : NnFloatType} {q : NnOpQuantType} {f : NnCpuOpForward} {x x' : ℕ} (w : NnSize2D)
        {u : NnFloatType}
        → Resolves d input t d.net_config.n_batches x
        → Resolves d output f_32 d.net_config.n_batches x'
        → Sized u x x' w
        → get_op_quant_type t u f_32 ≡ ok q
        → get_cpu_op_forward op_matmul q ≡ some f
        → Created (operation op_matmul name index input output w config)
    unfolding op_init
    matmul-Created {q = q} {f = f} w i o (wt, wy, wx) eq ef =
        let (c, plan, is) =
          planned slots (operation op_matmul name index input output w config) q f i o (rw wt eq)
            ef in
        let (it, iy, ix) = is.input_size in
        let (ot, oy, ox) = is.output_size in
        let byte : c.n_batches ≡ d.net_config.n_batches = omega (arith, is.n_batches) in
        record {
          context = c;
          plan = plan;
          init = λ flags h. (
            flags,
            rw (is.code, is.weight_size) (ground (arith, iy, ix, oy, ox, wy, wx, byte)),
            refl,
          );
        }
