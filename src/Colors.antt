-- ===== src/Colors.antt =====
-- src/hamsterdan/contracts/readiness_v5.py: the token colors of the workflow. Texts are `String`,
-- integers are natural numbers (incarnations, run identities and counts are never negative), and an
-- enumeration of literals is a data type.
pub mod Ingress
pub mod Batons
pub mod Facts
pub mod Gates
pub mod Reminders
pub mod Publications
pub mod Reviews
pub mod Places
pub use Ingress.*
pub use Batons.*
pub use Facts.*
pub use Gates.*
pub use Reminders.*
pub use Publications.*
pub use Reviews.*
pub use Places.*
