-- ===== src/ArrayText.antt =====
-- The text form of PostgreSQL arrays: src/lib/pq/parameter_traits.cpp, parameter_traits_array.hpp,
-- src/lib/pq/result_traits_array.cpp and result_traits_array.hpp.
pub mod Write
pub mod Read
pub mod Escape
pub mod Element
pub mod RoundTrip
pub mod Nested
pub mod Tests
