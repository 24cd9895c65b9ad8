-- ===== src/Database/New.antt =====
-- The constructor of `Database`.
use redis_like_in_memory_dat.Base.{
  ℕ, zero, suc, ◌/◌, ◌*◌, ◌^◌, ◌≤◌, ◌<◌, ◌≡◌, ◌∙◌, max, ap, [], arith, get_or, replicate, length,
  length-replicate, none, Bytes, inl, inr, Bool-cases, ltb, mul64, word, refl,
}
use redis_like_in_memory_dat.Database.Engine
use redis_like_in_memory_dat.Database.Engine.{
  Database, shard_at, shard_for, shard_index_for, new, round_up_loop, round_up_to_power_of_two,
}
use redis_like_in_memory_dat.Database.Shard.{Shard, new_shard, live_value}
use redis_like_in_memory_dat.Database.Sound.{IsSound, get-live, shard_index-lt}
use redis_like_in_memory_dat.HashTable.New.{new-IsValid, find-new}
use redis_like_in_memory_dat.HashTable.Table.{find}

-- The doubling starts from a positive number and does not wrap below 2⁶³.
round_up_loop_positive :
    (fuel n result : ℕ) → n ≤ 2 ^ 63 → 1 ≤ result → result < word → 1 ≤ round_up_loop fuel n result
unfolding round_up_loop
round_up_loop_positive zero n result h p w = p
round_up_loop_positive (suc fuel) n result h p w = elim (Bool-cases (ltb result n)) [
  | inl more ↦
      let small : result < n = ground (arith, more) in
      let e : mul64 result 2 ≡ result * 2 = omega arith in
      rw (more, e) (round_up_loop_positive fuel n (result * 2) h (omega arith) (omega arith))
  | inr done ↦ rw done p
]

round_up_positive : (n : ℕ) → n ≤ 2 ^ 63 → 1 ≤ round_up_to_power_of_two n
unfolding round_up_to_power_of_two
round_up_positive n h = round_up_loop_positive 64 n 1 h (omega arith) (omega arith)

get_or-filled : (n i : ℕ) (a d : Shard) → i < n → get_or (replicate n a) i d ≡ a
get_or-filled zero i a d h = absurd (omega arith)
get_or-filled (suc n) zero a d h = refl
get_or-filled (suc n) (suc i) a d h = get_or-filled n i a d (omega arith)

module _ (bucket_count shard_count : ℕ) (h : shard_count ≤ 2 ^ 63) where
  abbrev pub shards : ℕ
  shards = round_up_to_power_of_two (max shard_count 1)

  abbrev pub filled : Shard
  filled = new_shard (max (bucket_count / shards) 1)

  -- A new database, with up to 2⁶³ shards asked for, is sound: every shard is a valid empty table, and
  -- the mask that picks the shard of a key stays inside the array of shards.
  pub new-IsSound : IsSound (Engine.new bucket_count shard_count)
  unfolding new
  new-IsSound =
      let least : 1 ≤ shards = round_up_positive (max shard_count 1) (ground (arith, h)) in
      record {
        shaped = ground (arith, least, length-replicate shards filled);
        each = λ i k. (
          [],
          rw
              (get_or-filled shards i filled (new_shard 1)
                (omega (arith, k, length-replicate shards filled)))
              (new-IsValid (max (bucket_count / shards) 1)),
        );
      }

  -- Every shard is as the constructor made it, and so is that of every key.
  pub shard_at-new :
      (i : ℕ)
      → i < length (Engine.new bucket_count shard_count).shards
      → shard_at (Engine.new bucket_count shard_count) i ≡ filled
  unfolding new
  shard_at-new i k =
      get_or-filled shards i filled (new_shard 1) (omega (arith, k, length-replicate shards filled))

  pub shard_for-new : (q : Bytes) → shard_for (Engine.new bucket_count shard_count) q ≡ filled
  shard_for-new q =
      let db = Engine.new bucket_count shard_count in
      shard_at-new (shard_index_for db q) (shard_index-lt db q new-IsSound)

  -- In a new database, with up to 2⁶³ shards asked for, no key has a value at any moment.
  get-new :
      (now : ℕ) (q : Bytes) → (Engine.get now q (Engine.new bucket_count shard_count)).1 ≡ none
  unfolding live_value
  get-new now q =
      get-live now q (Engine.new bucket_count shard_count)
      ∙ ap (λ (s : Shard). live_value now (find s.table q)) (shard_for-new q)
      ∙ ap (live_value now) (find-new (max (bucket_count / shards) 1) q)
