-- ===== src/Models.antt =====
-- The page of the models: frontend/src/pages/ModelsPage.tsx and frontend/src/modelPricingDisplay.ts.
pub mod Sorting
pub mod Groups
pub mod Pricing
