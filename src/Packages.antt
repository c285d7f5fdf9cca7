-- ===== src/Packages.antt =====
-- compile.go: the names of packages and of what they export (Names), the map of the packages
-- (Imports), what is known of its entries (Ready), and lookups after an import (Lookup).
pub mod Names
pub mod Imports
pub mod Ready
pub mod Lookup
