-- ===== src/Gateway.antt =====
-- The REST gateway of the module: x/schedule/types/tx.pb.gw.go and query.pb.gw.go. The runtime of
-- grpc-gateway, the HTTP server and the connections of gRPC are parameters.
pub mod Runtime
pub mod Msg
pub mod Query
