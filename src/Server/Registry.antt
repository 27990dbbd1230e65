-- ===== src/Server/Registry.antt =====
-- The servers of internal/server, as their constructors make them, and those that main registers.
use database_router.Value.{Runtime}
use database_router.Driver.{Driver}
use database_router.Manager.{Manager}
use database_router.Service.{PostgresService, MongoService, RedisService, HealthService}
use database_router.Service.Backends.{new_postgres_service, new_mongo_service, new_redis_service}
use database_router.Service.Health.{new_health_service}

pub record PostgresServer (W : Type 0) : Type 0 where
  pub svc : PostgresService W

pub record MongoServer (W : Type 0) : Type 0 where
  pub svc : MongoService W

pub record RedisServer (W : Type 0) : Type 0 where
  pub svc : RedisService W

pub record HealthServer (W : Type 0) : Type 0 where
  pub health : HealthService W
  pub pg : PostgresService W
  pub mongo : MongoService W
  pub redis : RedisService W

abbrev new_postgres_server : {W : Type 0} → PostgresService W → PostgresServer W
new_postgres_server svc = record { svc = svc }

abbrev new_mongo_server : {W : Type 0} → MongoService W → MongoServer W
new_mongo_server svc = record { svc = svc }

abbrev new_redis_server : {W : Type 0} → RedisService W → RedisServer W
new_redis_server svc = record { svc = svc }

abbrev new_health_server :
    {W : Type 0}
    → HealthService W
    → PostgresService W
    → MongoService W
    → RedisService W
    → HealthServer W
new_health_server h pg mg rd = record { health = h; pg = pg; mongo = mg; redis = rd }

-- The services that main creates.
pub record Services (W : Type 0) : Type 0 where
  pub postgres : PostgresService W
  pub mongo : MongoService W
  pub redis : RedisService W
  pub health : HealthService W

abbrev new_services : {W : Type 0} → Driver W → Runtime → Manager → Services W
new_services d rt m =
    let pg = new_postgres_service d rt m in
    let mongo = new_mongo_service d rt m in
    let redis = new_redis_service d rt m in
    record {
      postgres = pg;
      mongo = mongo;
      redis = redis;
      health = new_health_service pg mongo redis;
    }

-- The servers that main registers.
pub record Servers (W : Type 0) : Type 0 where
  pub postgres : PostgresServer W
  pub mongo : MongoServer W
  pub redis : RedisServer W
  pub health : HealthServer W

abbrev pub new_servers : {W : Type 0} → Driver W → Runtime → Manager → Servers W
new_servers d rt m =
    let svc = new_services d rt m in
    record {
      postgres = new_postgres_server svc.postgres;
      mongo = new_mongo_server svc.mongo;
      redis = new_redis_server svc.redis;
      health = new_health_server svc.health svc.postgres svc.mongo svc.redis;
    }
