-- ===== src/Forge/Clients.antt =====
-- The clients of the forges: src/forge/. Each is a sequence of calls on the network of Forge/Http.
pub mod Graphql
pub mod Inventory
pub mod Bitbucket
pub mod Github
