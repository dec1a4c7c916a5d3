-- ===== src/Ebpf/Examples.antt =====
-- The layout of a kernel record at concrete bytes.
