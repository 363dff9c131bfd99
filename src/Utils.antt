-- ===== src/Utils.antt =====
-- internal/utils/slices/slice.go, and the functions of Go's strings that the code calls.
pub mod Slices
pub mod Strings
