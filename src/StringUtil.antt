-- ===== src/StringUtil.antt =====
-- src/string_util.c, a module for each family of functions: splitting a message into arguments,
-- quotes, blanks, numbers and paths.
pub mod Tokens
pub mod Integer
mod Shift
pub mod Quotes
pub mod Trim
pub mod Paths
