-- ===== src/Otel/Semconv.antt =====
-- The names of the OpenTelemetry semantic conventions that the source takes from the API's packages
-- (`messaging_attributes`, `rpc_attributes`, `http_attributes`, `url_attributes`,
-- `server_attributes`, `user_attributes`), as the conventions spell them.
use opentelemetry_openstack.Prelude.{String}

abbrev pub messaging_system : String
messaging_system = "messaging.system"

abbrev pub messaging_operation : String
messaging_operation = "messaging.operation"

abbrev pub messaging_operation_name : String
messaging_operation_name = "messaging.operation.name"

abbrev pub messaging_destination_name : String
messaging_destination_name = "messaging.destination.name"

abbrev pub messaging_message_id : String
messaging_message_id = "messaging.message.id"

abbrev pub messaging_message_conversation_id : String
messaging_message_conversation_id = "messaging.message.conversation_id"

abbrev pub rpc_system : String
rpc_system = "rpc.system"

abbrev pub rpc_method : String
rpc_method = "rpc.method"

abbrev pub rpc_service : String
rpc_service = "rpc.service"

abbrev pub http_request_method : String
http_request_method = "http.request.method"

abbrev pub http_route : String
http_route = "http.route"

abbrev pub http_response_status_code : String
http_response_status_code = "http.response.status_code"

abbrev pub url_full : String
url_full = "url.full"

abbrev pub url_path : String
url_path = "url.path"

abbrev pub url_scheme : String
url_scheme = "url.scheme"

abbrev pub server_address : String
server_address = "server.address"

abbrev pub server_port : String
server_port = "server.port"

abbrev pub user_id : String
user_id = "user.id"

abbrev pub user_name : String
user_name = "user.name"

abbrev pub user_roles : String
user_roles = "user.roles"
