-- ===== src/Database/Refined.antt =====
-- The database refines a map with deadlines, whatever requests it serves.
use redis_like_in_memory_dat.Base.{
  ℕ, suc, ◌^◌, ◌<◌, ◌≡◌, ◌⊎◌, refl, sym, ap, ◌∙◌, Bytes, str_eq, str_eq_iff, Option, none, some,
  true, false, if◌then◌else◌, ◌==◌, ==_iff, arith, inl, inr, Bool-cases,
}
use redis_like_in_memory_dat.Database.Engine
use redis_like_in_memory_dat.Database.Engine.{
  Database, shard_index_for, shard_at, shard_for, put_shard, nanos, fits_within_limit, set_until,
}
use redis_like_in_memory_dat.Database.Limit.{set_max_memory-Limited}
use redis_like_in_memory_dat.Database.Reads.{get_keeps, del_lem}
use redis_like_in_memory_dat.Database.Requests.{
  del, set_max_memory, clear, database_of, Contents, accepted, written, effect,
}
use redis_like_in_memory_dat.Database.Servable.{
  IsServable, IsServable-weaken, IsServable-AllFit, shard-Holds, put-IsServable, slice-put,
}
use redis_like_in_memory_dat.Database.Sound.{shard-Ordered, shard_index-lt}
use redis_like_in_memory_dat.Database.Swept.{SameSlices, cleared-IsServable}
use redis_like_in_memory_dat.Database.Tamed.{get-Tamer, del-Tamer}
use redis_like_in_memory_dat.Database.Shard
use redis_like_in_memory_dat.Database.Shard.{Shard, SetOutcome, live_value}
use redis_like_in_memory_dat.Database.Store.{dated_entry}
use redis_like_in_memory_dat.Database.Writes.{set_lem}
use redis_like_in_memory_dat.HashTable.Table.{Sizes}

-- What a reader at a moment may see of a map: what it holds, or nothing where an entry was evicted.
abbrev pub Shows : ℕ → Database → Contents → Type 0
Shows later db c =
    (q : Bytes)
    → ((Engine.get later q db).1 ≡ live_value later (c.entries q))
      ⊎ (((Engine.get later q db).1 ≡ none) × (c.limited ≡ true))

pub record Refines (later m : ℕ) (db : Database) (c : Contents) : Type 0 where
  pub servable : IsServable m db
  pub limit : db.max_memory_bytes ≡ c.limit
  pub slices : c.limited ≡ false → (q : Bytes) → (shard_for db q).max_memory_bytes ≡ 0
  pub shows : Shows later db c

accepted_lem :
    (sz : Sizes) (key value : Bytes) (db : Database) (c : Contents)
    → db.max_memory_bytes ≡ c.limit
    → fits_within_limit sz db key value ≡ accepted sz key value c
unfolding fits_within_limit
accepted_lem sz key value db c e = rw e (ground arith)

module _ (sz : Sizes) (later m : ℕ) (db : Database) (c : Contents) (r : Refines later m db c)
    (lt : m < 2 ^ 56) where
  module _ (key value : Bytes) (deadline : Option ℕ) where
    set-Shows :
        (v : Database)
        → ((q : Bytes)
            → str_eq key q ≡ false
            → ((Engine.get later q v).1 ≡ (Engine.get later q db).1)
              ⊎ (((Engine.get later q v).1 ≡ none) × (c.limited ≡ true)))
        → (Engine.get later key v).1 ≡ live_value later (some (dated_entry key value deadline))
        → Shows later v (record c {
          entries =
              λ q. if str_eq key q then some (dated_entry key value deadline) else c.entries q;
        })
    set-Shows v others own q = elim (Bool-cases (str_eq key q)) [
      | inl same ↦ inl (
          ap (λ k. (Engine.get later k v).1) (sym ((str_eq_iff key q).0 same)) ∙ own ∙ rw same refl)
      | inr other ↦ elim (others q other) [
        | inl kept ↦ elim (r.shows q) [
          | inl shown ↦ inl (kept ∙ shown ∙ rw other refl)
          | inr (lost, limited) ↦ inr (kept ∙ lost, limited)
        ]
        | inr lost ↦ inr lost
      ]
    ]

    pub set_until-Refines :
        (db' : Database) × (database_of (set_until sz key value deadline db) ≡ some db')
        × Refines later (suc m) db' (written sz key value deadline c)
    set_until-Refines = elim (Bool-cases (accepted sz key value c)) [
      | inr refused ↦
          let no_room = accepted_lem sz key value db c r.limit ∙ refused in
          (
            db,
            unfold set_until in rw no_room refl,
            rw refused (record {
              servable = IsServable-weaken m (suc m) db (omega arith) r.servable;
              limit = r.limit;
              slices = r.slices;
              shows = r.shows;
            }),
          )
      | inl granted ↦
          let room = accepted_lem sz key value db c r.limit ∙ granted in
          let fits = IsServable-AllFit m db (omega (arith, lt)) r.servable in
          let (db', st) = set_lem sz key value deadline db r.servable.sound fits room in
          (
            db',
            ap database_of st.runs,
            rw granted (record {
              servable = st.servable m lt r.servable;
              limit = st.limit ∙ r.limit;
              slices = λ e q. st.slices q ∙ r.slices e q;
              shows =
                  set-Shows db'
                    (λ q ne. elim (Bool-cases c.limited) [
                      | inr never ↦ inl (st.exact (r.slices never key) later q ne)
                      | inl limited ↦ elim (st.others later q ne) [
                        | inl kept ↦ inl kept
                        | inr lost ↦ inr (lost, limited)
                      ]
                    ])
                    (st.own later);
            }),
          )
    ]

  -- A request that readers at the moment do not see.
  pub unseen :
      (db' : Database)
      → IsServable m db'
      → db'.max_memory_bytes ≡ db.max_memory_bytes
      → SameSlices db db'
      → ((q : Bytes) → (Engine.get later q db').1 ≡ (Engine.get later q db).1)
      → Refines later (suc m) db' c
  unseen db' v limit slices same = record {
    servable = IsServable-weaken m (suc m) db' (omega arith) v;
    limit = limit ∙ r.limit;
    slices = λ e q. slices q ∙ r.slices e q;
    shows = λ q. elim (r.shows q) [
      | inl shown ↦ inl (same q ∙ shown)
      | inr (lost, limited) ↦ inr (same q ∙ lost, limited)
    ];
  }

  pub get-Refines : (now : ℕ) (key : Bytes) → Refines later (suc m) (Engine.get now key db).0 c
  unfolding Engine.get
  get-Refines now key =
      let s = shard_for db key in
      let (t, slice) =
        get-Tamer now m key s (shard-Ordered db key r.servable.sound)
          (shard-Holds m db key r.servable) in
      unseen (put_shard db key (Shard.get now key s).0)
        (put-IsServable db key (Shard.get now key s).0 m m r.servable (omega arith) t.ordered t.room
          (λ q ne. t.absent q))
        refl (λ q. slice-put db key q (Shard.get now key s).0 r.servable.sound slice)
        (λ q. (get_keeps now key db r.servable.sound).1 later q)

  pub del-Refines :
      (now : ℕ) (key : Bytes)
      → Refines later (suc m) (Engine.del now key db).0 (effect sz (del now key) c)
  unfolding Engine.del effect live_value
  del-Refines now key =
      let s = shard_for db key in
      let (t, slice) =
        del-Tamer now m key s (shard-Ordered db key r.servable.sound)
          (shard-Holds m db key r.servable) in
      let v =
        put-IsServable db key (Shard.del now key s).0 m m r.servable (omega arith) t.ordered t.room
          (λ q ne. t.absent q) in
      record {
        servable = IsServable-weaken m (suc m) _ (omega arith) v;
        limit = r.limit;
        slices =
            λ e q. slice-put db key q (Shard.del now key s).0 r.servable.sound slice ∙ r.slices e q;
        shows = λ q.
            let told = (del_lem now key db r.servable.sound).2 later q in
            elim (Bool-cases (str_eq key q)) [
              | inl same ↦ inl (told ∙ rw same refl)
              | inr other ↦ elim (r.shows q) [
                | inl shown ↦ inl (told ∙ rw other shown)
                | inr (lost, limited) ↦ inr (told ∙ rw other lost, limited)
              ]
            ];
      }

  pub limit-Refines :
      (bytes : ℕ)
      → (db' : Database) × (Engine.set_max_memory sz bytes db ≡ some db')
        × Refines later (suc m) db' (effect sz (set_max_memory bytes) c)
  unfolding effect
  limit-Refines bytes =
      let (db', l) = set_max_memory-Limited sz bytes m db r.servable lt in
      (
        db',
        l.runs,
        record {
          servable = IsServable-weaken m (suc m) db' (omega arith) l.servable;
          limit = l.limit;
          slices = λ e q.
              l.slices (shard_index_for db' q) (shard_index-lt db' q l.servable.sound)
              ∙ ground (arith, e);
          shows = λ q. elim (Bool-cases (bytes == 0)) [
            | inl none_set ↦ elim (r.shows q) [
              | inl shown ↦ inl (l.unlimited ((==_iff bytes 0).0 none_set) later q ∙ shown)
              | inr (lost, limited) ↦ inr (
                l.unlimited ((==_iff bytes 0).0 none_set) later q ∙ lost,
                ground (arith, none_set, limited),
              )
            ]
            | inr some_limit ↦ elim (l.reads later q) [
              | inl kept ↦ elim (r.shows q) [
                | inl shown ↦ inl (kept ∙ shown)
                | inr (lost, limited) ↦ inr (kept ∙ lost, ground (arith, some_limit))
              ]
              | inr lost ↦ inr (lost, ground (arith, some_limit))
            ]
          ];
        },
      )

  pub clear-Refines : Refines later (suc m) (Engine.clear db) (effect sz clear c)
  unfolding Engine.clear effect live_value
  clear-Refines =
      let (v, slices, empty) = cleared-IsServable m db r.servable in
      record {
        servable = IsServable-weaken m (suc m) _ (omega arith) v;
        limit = r.limit;
        slices = λ e q. slices q ∙ r.slices e q;
        shows = λ q. inl (empty later q);
      }
