-- ===== src/Quants/Examples.antt =====
-- Ten items of work for three threads.
use distributed_llama.Base.{ℕ, ◌+◌, ◌-◌, ◌≤◌, ◌<◌, ◌≡◌, arith}
use distributed_llama.Quants.Threads.{
  Holds, split_threads, dequantize_range, split_threads_partition, split_threads_balance,
  dequantize_range_partition,
}

split_threads_partition_example :
    (t : ℕ) × (t < 3)
    × Holds (split_threads 10 3 t) 7
    × ((s : ℕ) → s < 3 → Holds (split_threads 10 3 s) 7 → s ≡ t)
split_threads_partition_example =
    split_threads_partition 10 3 7 (omega arith) (omega arith) (omega arith)

split_threads_balance_example :
    ((split_threads 10 3 0).start ≤ (split_threads 10 3 0).end)
    × ((split_threads 10 3 0).end ≤ 10)
    × ((split_threads 10 3 0).end - (split_threads 10 3 0).start
        ≤ (split_threads 10 3 2).end - (split_threads 10 3 2).start + 1)
split_threads_balance_example =
    split_threads_balance 10 3 0 2 (omega arith) (omega arith) (omega arith)

dequantize_range_partition_example :
    (t : ℕ) × (t < 3)
    × Holds (dequantize_range 10 3 t) 9
    × ((s : ℕ) → s < 3 → Holds (dequantize_range 10 3 s) 9 → s ≡ t)
dequantize_range_partition_example = dequantize_range_partition 10 3 9 (omega arith) (omega arith)
