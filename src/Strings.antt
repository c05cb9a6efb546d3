-- ===== src/Strings.antt =====
-- common/string_utils.h: strings as lists of their characters.
pub mod Defs
pub mod Joining
pub mod Splitting
pub mod Editing
pub mod Trimming
pub mod Hex
