-- ===== src/Listings.antt =====
-- The pages on properties: frontend/src/pages/CreateListingPage.tsx and the availability calendar of
-- frontend/src/pages/PropertyDetailPage.tsx.
pub mod Create
pub mod Availability
pub mod Detail
pub mod Filters
pub mod Loading
