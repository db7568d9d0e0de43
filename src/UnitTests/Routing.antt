-- ===== src/UnitTests/Routing.antt =====
-- The test of src/postgres/router.rs, with its sources that count their calls.
use soap_sqlx.Prelude.{ℕ, ◌+◌, ◌≡◌, refl, [], ◌∷◌, err}
use soap_sqlx.Sqlx.{SqlxError}
use soap_sqlx.Source.{PgSource}
use soap_sqlx.Router.{PgPrimaryReplicaSource, RouterState, new, router_source}
use soap_sqlx.Samples.{sample}

-- The counters of one `CountingSource`.
pub record Counters : Type 0 where
  pub reads : ℕ
  pub writes : ℕ

-- The three sources of the test.
pub record Servers : Type 0 where
  pub primary : Counters
  pub first_replica : Counters
  pub second_replica : Counters

abbrev read_once : Counters → Counters
read_once c = record c { reads = c.reads + 1 }

abbrev write_once : Counters → Counters
write_once c = record c { writes = c.writes + 1 }

-- `CountingSource`, whose counters are a part of the world.
abbrev counting_source : ((Counters → Counters) → Servers → Servers) → PgSource sample Servers
counting_source update = record {
  fetch_all = λ _ _ s. (err SqlxError.pool_closed, update read_once s);
  fetch_optional = λ _ _ s. (err SqlxError.pool_closed, update read_once s);
  fetch_one = λ _ _ s. (err SqlxError.pool_closed, update read_once s);
  apply = λ _ _ s. (err SqlxError.pool_closed, update write_once s);
  apply_one = λ _ _ s. (err SqlxError.pool_closed, update write_once s);
}

abbrev router : PgPrimaryReplicaSource sample Servers
router = new (counting_source (λ f s. record s { primary = f s.primary })) (
    counting_source (λ f s. record s { first_replica = f s.first_replica })
    ∷ counting_source (λ f s. record s { second_replica = f s.second_replica })
    ∷ [])

-- `CountingSource::default()`
abbrev default : Counters
default = record { reads = 0; writes = 0 }

abbrev unused : RouterState sample Servers
unused = record {
  next_replica = 0;
  world = record { primary = default; first_replica = default; second_replica = default };
}

abbrev used : RouterState sample Servers
used =
    let source = router_source router in
    let s1 = (source.fetch_all "SELECT 1" [] unused).1 in
    let s2 = (source.fetch_optional "SELECT 1" [] s1).1 in
    let s3 = (source.apply "UPDATE users SET active = true" [] s2).1 in
    (source.apply_one "INSERT INTO users DEFAULT VALUES RETURNING id" [] s3).1

abbrev RoundRobinsReadsAndKeepsWritesOnPrimary : Type 0
RoundRobinsReadsAndKeepsWritesOnPrimary =
    (used.world.first_replica.reads ≡ 1)
    × (used.world.second_replica.reads ≡ 1)
    × (used.world.primary.reads ≡ 0)
    × (used.world.primary.writes ≡ 2)

round_robins_reads_and_keeps_writes_on_primary : RoundRobinsReadsAndKeepsWritesOnPrimary
unfolding router_source
round_robins_reads_and_keeps_writes_on_primary = (refl, refl, refl, refl)
