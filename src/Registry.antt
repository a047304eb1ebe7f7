-- ===== src/Registry.antt =====
-- internal/registry/chain.go: the entries of the registry that a run probes.
use chain_registry_sentinel.Base.{String, List}

pub record Endpoint : Type 0 where
  pub address : String
  pub provider : String

pub record Chain : Type 0 where
  pub name : String
  pub chain_id : String
  pub chain_type : String
  pub status : String
  pub rpcs : List Endpoint
  pub rest_endpoints : List Endpoint
  pub grpc_web_endpoints : List Endpoint
  pub grpc_endpoints : List Endpoint
  pub evm_endpoints : List Endpoint
  pub wss_endpoints : List Endpoint
