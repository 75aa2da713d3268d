-- ===== src/Cluster.antt =====
-- liveman/src: the nodes of a cluster.
pub mod Storage
