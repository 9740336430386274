-- ===== src/Modtool.antt =====
-- The commands of gr_modtool.py that change the files of a module.
pub mod World
pub mod ModuleName
pub mod Base
pub mod Directory
pub mod Choice
pub mod Util
pub mod Add
pub mod AddLib
pub mod AddRun
pub mod Keeps
pub mod Remove
pub mod Kept
pub mod Disable
pub mod Untouched
pub mod Unmatched
pub mod Emptied
pub mod Info
pub mod NewModule
pub mod MakeXml
pub mod Main
pub mod Dispatch
pub mod Arguments
pub mod Comments
pub mod Answers
pub mod Written
pub mod Listed
pub mod Renamed
pub mod Converted
pub mod Pasted
mod AddTests
mod CommandTests
pub mod Adapted
mod Tests
mod XmlTests
