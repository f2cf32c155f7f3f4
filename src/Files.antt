-- ===== src/Files.antt =====
-- The file system that the code works on through `pathlib` and `shutil`: absolute paths as lists of
-- their components, no symbolic links, files with their text, and the directories that were made.
pub mod Paths
pub mod Tree
unfoldable pub use Paths.*
unfoldable pub use Tree.*
