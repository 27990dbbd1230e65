-- ===== src/Service/Backends.antt =====
-- The constructors of the services: the interfaces of `Service.antt`, implemented on a manager.
use database_router.Value.{Runtime}
use database_router.Driver.{Driver}
use database_router.Manager.{Manager}
use database_router.Service.{PostgresService, MongoService, RedisService}
use database_router.Service.Postgres
use database_router.Service.Mongo
use database_router.Service.Redis

module _ {W : Type 0} (d : Driver W) (rt : Runtime) (m : Manager) where
  abbrev pub new_postgres_service : PostgresService W
  new_postgres_service = record {
    list_databases = λ ctx. Postgres.list_databases d rt m ctx;
    create_database = λ ctx. Postgres.create_database d rt m ctx;
    list_tables = λ ctx. Postgres.list_tables d rt m ctx;
    execute_query = λ ctx. Postgres.execute_query d rt m ctx;
    select_data = λ ctx. Postgres.select_data d rt m ctx;
    insert_data = λ ctx. Postgres.insert_data d rt m ctx;
    update_data = λ ctx. Postgres.update_data d rt m ctx;
    delete_data = λ ctx. Postgres.delete_data d rt m ctx;
    test_connection = λ ctx. Postgres.test_connection d rt m ctx;
  }

  abbrev pub new_mongo_service : MongoService W
  new_mongo_service = record {
    list_databases = λ ctx. Mongo.list_databases d rt m ctx;
    list_collections = λ ctx. Mongo.list_collections d rt m ctx;
    insert_document = λ ctx. Mongo.insert_document d rt m ctx;
    find_documents = λ ctx. Mongo.find_documents d rt m ctx;
    update_document = λ ctx. Mongo.update_document d rt m ctx;
    delete_document = λ ctx. Mongo.delete_document d rt m ctx;
    test_connection = λ ctx. Mongo.test_connection d rt m ctx;
  }

  abbrev pub new_redis_service : RedisService W
  new_redis_service = record {
    list_keys = λ ctx. Redis.list_keys d m ctx;
    set_value = λ ctx. Redis.set_value d m ctx;
    get_value = λ ctx. Redis.get_value d m ctx;
    delete_key = λ ctx. Redis.delete_key d m ctx;
    info = λ ctx. Redis.info d m ctx;
    test_connection = λ ctx. Redis.test_connection d m ctx;
  }
