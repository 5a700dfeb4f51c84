-- ===== src/Mcl.antt =====
-- kernel/mcl/mcl_parser.cpp: the command language. `Mcl.Tokens` has the tokenizer, `Mcl.Command` the
-- parser and the suggestions, `Mcl.Input` the line that the keyboard fills and its processing.
pub mod Tokens
pub mod Command
pub mod Input
pub mod Words
pub mod Outcome
pub mod Editing
mod Tests
