-- ===== src/Proxy.antt =====
-- The data plane: routing, load balancing and the HTTP proxy (aws_light/proxy).
pub mod RoutingTable
pub mod LoadBalancer
pub mod RedisTable
pub mod Bytes
pub mod Http
pub mod Ingress
pub mod Head
pub mod Gateway
pub mod Traffic
pub mod HealthChecker
