-- ===== src/Log/Admission.antt =====
-- begin_op leaves room in the log for the operation that it admits.
