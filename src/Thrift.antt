-- ===== src/Thrift.antt =====
-- tools/datagen/parquet.py: the compact Thrift protocol, just enough to rewrite a Parquet footer.
pub mod Value
pub mod Cursor
pub mod Reader
pub mod Writer
pub mod Reads
pub mod Numbers
pub mod Canonical
pub mod RoundTrip
pub mod Total
pub mod Typed
pub mod Footer
