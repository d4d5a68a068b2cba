-- ===== src/Tools/Keyspace/Sweep.antt =====
-- How the workers share the keys.
