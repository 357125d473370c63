-- ===== src/Protocol/Examples.antt =====
-- The theorem on `set_resource_id` at a concrete message.
