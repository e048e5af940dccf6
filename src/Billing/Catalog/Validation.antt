-- ===== src/Billing/Catalog/Validation.antt =====
-- Which plans the catalog offers.
