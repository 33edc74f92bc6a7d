-- ===== src/Binding.antt =====
-- python/zpq.py: libzpq from Python.
pub mod Context
pub mod Rows
pub mod Calls
